-- ===== src/Flight/Target/Answers.antt =====
-- What TargetHostInfo of internal/remoteflight/target.go tells of a target.
use terraform_provider_enos.Prelude.{
  ◌≡◌, sym, ◌↔◌, refl, ap, subst, ℕ, Option, none, some, [], ◌∷◌, Bytes,
}
use terraform_provider_enos.Go.{Err, returned, panicked}
use terraform_provider_enos.Transport.{Run}
use terraform_provider_enos.Retry.{Env}
use terraform_provider_enos.Flight.Target.{TransportType}
use terraform_provider_enos.Flight.Target.Request.{TargetRequest, Told, HostInfo}
use terraform_provider_enos.Flight.Target.Distro.{target_distro}
use terraform_provider_enos.Flight.Target.Gather.{
  Gathered, Questions, add, gather, gather_all, questions, no_info, target_host_info,
}
use terraform_provider_enos.Flight.Target.{
  target_architecture, target_hostname, target_platform, target_platform_version,
  target_process_manager,
}
use terraform_provider_enos.Flight.Target.Distro.{target_distro, target_distro_version}

module _ {W : Type 0} where
  abbrev Gives : Gathered W → HostInfo → W → Type 0
  Gives g info w = g ≡ some (returned (info, none, w))

  -- A question is answered with a text and no error.
  abbrev pub Tells : (W → Told W) → W → Bytes → W → Type 0
  Tells ask w t w' = ask w ≡ some (returned (t, none, w'))

  add-Tells :
      (put : Bytes → HostInfo → HostInfo) (info : HostInfo) (errs : Option Err) (told : Told W)
      {info' : HostInfo} {w' : W}
      → add put info errs told ≡ some (returned (info', none, w'))
      → (t : Bytes) × (errs ≡ none) × (told ≡ some (returned (t, none, w'))) × (info' ≡ put t info)
  add-Tells put info errs none h = absurd (cc h)
  add-Tells put info errs (some panicked) h = absurd (cc h)
  add-Tells put info none (some (returned (t, none, w))) h =
      (t, refl, ap (λ (x : W). some (returned (t, none, x))) (cc h), cc h)
  add-Tells put info none (some (returned (t, some e, w))) h = absurd (cc h)
  add-Tells put info (some e) (some (returned (t, none, w))) h = absurd (cc h)
  add-Tells put info (some e) (some (returned (t, some e', w))) h = absurd (cc h)

  gather-Tells :
      (g : Gathered W) (ask : W → Told W) (put : Bytes → HostInfo → HostInfo) {info : HostInfo}
      {w' : W}
      → Gives (gather g ask put) info w'
      → (before : HostInfo) × (w : W) × (t : Bytes) × Gives g before w
        × Tells ask w t w'
        × (info ≡ put t before)
  gather-Tells none ask put h = absurd (cc h)
  gather-Tells (some panicked) ask put h = absurd (cc h)
  gather-Tells (some (returned (before, errs, w))) ask put h =
      let (t, none_before, told, e) = add-Tells put before errs (ask w) h in
      (before, w, t, rw none_before refl, told, e)

  -- Questions that are each answered with no error, one after the other, and what they make of the
  -- information.
  data AllTell : Questions W → HostInfo → W → HostInfo → W → Type 0 where
    no_more : (info : HostInfo) (w : W) → AllTell [] info w info w
    asks :
        {ask : W → Told W} {put : Bytes → HostInfo → HostInfo} {questions : Questions W}
        {info info' : HostInfo} {w w1 w' : W} (t : Bytes)
        → Tells ask w t w1
        → AllTell questions (put t info) w1 info' w'
        → AllTell ((ask, put) ∷ questions) info w info' w'

  gather_all-AllTell :
      (questions : Questions W) (g : Gathered W) {info' : HostInfo} {w' : W}
      → Gives (gather_all questions g) info' w'
      → (info : HostInfo) × (w : W) × Gives g info w × AllTell questions info w info' w'
  gather_all-AllTell [] g {info'} {w'} h = (info', w', h, no_more info' w')
  gather_all-AllTell ((ask, put) ∷ questions) g {info'} {w'} h =
      let (info, w, g1, rest) = gather_all-AllTell questions (gather g ask put) h in
      let (before, w0, t, g0, told, e) = gather-Tells g ask put g1 in
      (before, w0, g0, asks t told (subst (λ i. AllTell questions i w info' w') e rest))

  all_told :
      (questions : Questions W) (info : HostInfo) (w : W) {info' : HostInfo} {w' : W}
      → Gives (gather_all questions (some (returned (info, none, w)))) info' w'
      → AllTell questions info w info' w'
  all_told questions info w {info'} {w'} h =
      let (before, w0, g, all) = gather_all-AllTell questions (some (returned (info, none, w))) h in
      let same_info : before ≡ info = cc g in
      let same_world : w0 ≡ w = cc g in
      subst (λ i. AllTell questions i w info' w') same_info
        (subst (λ x. AllTell questions before x info' w') same_world all)

  AllTell-gather_all :
      {qs : Questions W} {info info' : HostInfo} {w w' : W}
      → AllTell qs info w info' w'
      → Gives (gather_all qs (some (returned (info, none, w)))) info' w'
  AllTell-gather_all (no_more info w) = refl
  AllTell-gather_all (asks t told rest) = rw told (AllTell-gather_all rest)

  -- The seven questions are answered with no error, one after the other, each as its own function
  -- answers it, and the information has each answer in its own field.
  abbrev pub SevenTold :
      ℕ → Env W → TransportType → Run W → TargetRequest W → W → HostInfo → W → Type 0
  SevenTold fuel env type tr req w info w' =
      (machine name version host process system release : Bytes) × (w1 w2 w3 w4 w5 w6 : W) × Tells
        (target_architecture fuel env tr req) w machine w1
      × Tells (target_distro fuel env tr req) w1 name w2
      × Tells (target_distro_version fuel env tr req) w2 version w3
      × Tells (target_hostname fuel env tr req) w3 host w4
      × Tells (target_process_manager fuel env type tr req) w4 process w5
      × Tells (target_platform fuel env tr req) w5 system w6
      × Tells (target_platform_version fuel env tr req) w6 release w'
      × (info ≡ record {
        arch = some machine;
        distro = some name;
        distro_version = some version;
        hostname = some host;
        pid1 = some process;
        platform = some system;
        platform_version = some release;
      })

  AllTell-SevenTold :
      (fuel : ℕ) (env : Env W) (type : TransportType) (tr : Run W) (req : TargetRequest W) (w : W)
      (info : HostInfo) (w' : W)
      → AllTell (questions fuel env type tr req) no_info w info w'
      → SevenTold fuel env type tr req w info w'
  AllTell-SevenTold fuel env type tr req w info w'
        (asks m a (asks n b (asks v c (asks h d (asks p e (asks s f (asks r g (no_more _ _)))))))) =
      (m, n, v, h, p, s, r, _, _, _, _, _, _, a, b, c, d, e, f, g, refl)

  SevenTold-AllTell :
      (fuel : ℕ) (env : Env W) (type : TransportType) (tr : Run W) (req : TargetRequest W) (w : W)
      (info : HostInfo) (w' : W)
      → SevenTold fuel env type tr req w info w'
      → AllTell (questions fuel env type tr req) no_info w info w'
  SevenTold-AllTell fuel env type tr req w info w'
        (m, n, v, h, p, s, r, _, _, _, _, _, _, a, b, c, d, e, f, g, same) =
      subst (λ i. AllTell (questions fuel env type tr req) no_info w i w') (sym same)
        (asks m a (asks n b (asks v c (asks h d (asks p e (asks s f (asks r g (no_more _ _))))))))

  -- TargetHostInfo returns with no error exactly where the architecture, the distribution, its
  -- version, the hostname, the process manager, the platform and its version are told with no error,
  -- one after the other in this order, each by its own function; and its information has each of the
  -- seven in its own field.
  pub target_host_info_iff :
      (fuel : ℕ) (env : Env W) (type : TransportType) (tr : Run W) (req : TargetRequest W) (w : W)
      (info : HostInfo) (w' : W)
      → (target_host_info fuel env type tr req w ≡ some (returned (info, none, w')))
        ↔ SevenTold fuel env type tr req w info w'
  unfolding target_host_info
  target_host_info_iff fuel env type tr req w info w' = (
    λ h.
        AllTell-SevenTold fuel env type tr req w info w'
          (all_told (questions fuel env type tr req) no_info w h),
    λ h. AllTell-gather_all (SevenTold-AllTell fuel env type tr req w info w' h),
  )
