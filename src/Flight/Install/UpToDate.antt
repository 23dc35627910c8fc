-- ===== src/Flight/Install/UpToDate.antt =====
-- Where the tests and CopyFile of internal/remoteflight/flightcontrol.go end with no error: the binary at the
-- path is the one that is wanted.
use terraform_provider_enos.Prelude.{
  ◌≡◌, ◌≢◌, refl, ap, ◌⊎◌, inl, inr, Bool, true, false, Option, none, some, Option-cases, [], ◌∷◌,
  Bytes, bytes_eq_iff,
}
use terraform_provider_enos.Go.{Err, Ran, returned, panicked}
use terraform_provider_enos.Transport.{Run, new_command}
use terraform_provider_enos.Retry.{Retrier}
use terraform_provider_enos.Retry.Outcome.{SaysWhy}
use terraform_provider_enos.Flight.File.{tmp_path}
use terraform_provider_enos.Flight.File.Laws.{Placed, copy_file-Placed}
use terraform_provider_enos.Flight.Target.Request.{Told}
use terraform_provider_enos.Flight.Install.{
  Host, copy_request, after_copy, unless_current, install_at,
}
use terraform_provider_enos.Flight.Install.Checksum.{
  test_command, checksum_at, is_desired, compared, is_current,
}

is_desired-inv :
    (desired sha : Bytes) (e : Option Err)
    → is_desired desired sha e ≡ true
    → (e ≡ none) × (sha ≡ desired) × (sha ≢ [])
is_desired-inv desired sha (some e) h = absurd (cc h)
is_desired-inv desired [] none h = absurd (cc h)
is_desired-inv desired (c ∷ sha) none h = (refl, (bytes_eq_iff (c ∷ sha) desired).0 h, λ p. cc p)

module _ {W : Type 0} (tr : Run W) where
  -- The path is a file, whose checksum is not empty and is the one that is wanted.
  abbrev pub HasChecksum : Bytes → Bytes → W → W → Type 0
  HasChecksum path desired w w' =
      (w1 : W) × ((tr (new_command (test_command path)) w).0.err ≡ none)
      × ((tr (new_command (test_command path)) w).1 ≡ w1)
      × (checksum_at tr path w1 ≡ (desired, none, w'))
      × (desired ≢ [])

  compared-inv :
      (desired : Bytes) (r : Bytes × Option Err × W) {w' : W}
      → compared desired r ≡ (true, w')
      → (r ≡ (desired, none, w')) × (desired ≢ [])
  compared-inv desired (sha, e, w) h =
      let (ok, same, given) = is_desired-inv desired sha e (ap (λ x. x.0) h) in
      (rw (ok, same, ap (λ x. x.1) h) refl, rw same at given)

  is_current-HasChecksum :
      (path desired : Bytes) (w : W) {w' : W}
      → is_current tr path desired w ≡ (true, w')
      → HasChecksum path desired w w'
  unfolding is_current
  is_current-HasChecksum path desired w h =
      elim (Option-cases (tr (new_command (test_command path)) w).0.err) [
        | inl ok ↦
            let (sum, given) = compared-inv desired _ (rw ok at h) in (_, ok, refl, sum, given)
        | inr (e, bad) ↦ absurd (cc (ap (λ x. x.0) (rw bad at h)))
      ]

abbrev pub Ends : {W : Type 0} → Told W → Bytes → W → Type 0
Ends o r w' = o ≡ some (returned (r, none, w'))

module _ {W C : Type 0} (host : Host W C) where
  -- An attempt of CopyFile placed the content at the path.
  abbrev pub Copied : Bytes → Bytes → Retrier W Bytes → W → Type 0
  Copied path content r w' =
      (w0 : W) × Placed host.tr (copy_request host path content r)
        (tmp_path (copy_request host path content r) host.id) w0 w'

  -- The file has the checksum of the content and nothing is written, or it has not and the content is
  -- placed at the path.
  abbrev pub UpToDate : Bytes → Bytes → Retrier W Bytes → W → W → Type 0
  UpToDate path content r w w' =
      HasChecksum host.tr.run path (host.sha256 content) w w'
      ⊎ ((w1 : W) × (is_current host.tr.run path (host.sha256 content) w ≡ (false, w1))
          × Copied path content r w')

  after_copy-inv :
      (res_path : Bytes) (o : Option (Ran (Option Err × W))) {p : Bytes} {w' : W}
      → Ends (after_copy host res_path o) p w'
      → (p ≡ res_path) × (o ≡ some (returned (none, w')))
  after_copy-inv res_path none h = absurd (cc h)
  after_copy-inv res_path (some panicked) h = absurd (cc h)
  after_copy-inv res_path (some (returned (some e, w))) h = absurd (cc h)
  after_copy-inv res_path (some (returned (none, w))) h =
      (cc h, ap (λ (x : W). some (returned (none, x))) (cc h))

  unless_current-inv :
      (res_path path content : Bytes) (r : Retrier W Bytes) (c : Bool × W) {p : Bytes} {w' : W}
      → SaysWhy host.env
      → Ends (unless_current host res_path path content r c) p w'
      → (p ≡ res_path)
        × ((c ≡ (true, w')) ⊎ ((w1 : W) × (c ≡ (false, w1)) × Copied path content r w'))
  unless_current-inv res_path path content r (true, w) why h =
      (cc h, inl (ap (λ (x : W). (true, x)) (cc h)))
  unless_current-inv res_path path content r (false, w) why h =
      let (same, copied) = after_copy-inv res_path _ h in
      (same, inr (w, refl, copy_file-Placed host.fuel host.env host.tr host.id _ w why copied))

  pub install_at-UpToDate :
      (res_path path content : Bytes) (r : Retrier W Bytes) (w : W) {p : Bytes} {w' : W}
      → SaysWhy host.env
      → Ends (install_at host res_path path content r w) p w'
      → (p ≡ res_path) × UpToDate path content r w w'
  unfolding install_at
  install_at-UpToDate res_path path content r w why h =
      let (same, either) = unless_current-inv res_path path content r _ why h in
      elim either [
        | inl current ↦ (same, inl (is_current-HasChecksum host.tr.run path _ w current))
        | inr stale ↦ (same, inr stale)
      ]
