-- ===== src/Flight/Install/Laws.antt =====
-- What InstallFlightControl of internal/remoteflight/flightcontrol.go has done where it ends with no error,
-- and the path that its response has.
use terraform_provider_enos.Prelude.{
  ◌≡◌, refl, sym, ◌∙◌, ◌⊎◌, inl, inr, Bool, true, false, Option, none, some, [], Bytes, codes,
}
use terraform_provider_enos.Go.{Err, Ran, returned, panicked}
use terraform_provider_enos.Retry.{done, Retrier}
use terraform_provider_enos.Retry.Outcome.{SaysWhy}
use terraform_provider_enos.Flight.Paths.{join_paths}
use terraform_provider_enos.Flight.OsRelease.{format_platform, format_arch}
use terraform_provider_enos.Flight.Target.{
  platform_question, architecture_question, unless_error, unless_nil,
}
use terraform_provider_enos.Flight.Target.Request.{
  TargetRequest, Told, new_target_request, asked_sharing,
}
use terraform_provider_enos.Flight.Target.HomeDir.{target_home_dir}
use terraform_provider_enos.Flight.Install.Embedded.{supported_target, read_target_file}
use terraform_provider_enos.Flight.Install.{
  Host, InstallRequest, in_home_dir, choose_path, with_binary, if_supported, with_arch,
  with_platform, unless_done, install_flight_control,
}
use terraform_provider_enos.Flight.Install.UpToDate.{Ends, UpToDate, install_at-UpToDate}

module _ {W C : Type 0} (host : Host W C) where
  -- Where the binary goes, and the path that the response has.
  abbrev pub Chosen : InstallRequest W → W → Bytes → Bytes → W → Type 0
  Chosen ir w path p w' =
      ((ir.use_home_dir ≡ false) × (path ≡ ir.path) × (p ≡ []) × (w ≡ w'))
      ⊎ ((home : Bytes) × (ir.use_home_dir ≡ true)
          × (target_home_dir host.fuel host.env host.tr.run (new_target_request host.wide []) w
              ≡ some (returned (home, none, w')))
          × (path ≡ join_paths home (codes "enos-flight-control"))
          × (p ≡ path))

  abbrev pub At : InstallRequest W → Bytes → Retrier W Bytes → W → Bytes → W → Type 0
  At ir content r w p w' =
      (path : Bytes) × (w1 : W) × Chosen ir w path p w1 × UpToDate host path content r w1 w'

  in_home_dir-inv :
      (content : Bytes) (r : Retrier W Bytes) (o : Told W) {p : Bytes} {w' : W}
      → SaysWhy host.env
      → Ends (in_home_dir host content r o) p w'
      → (home : Bytes) × (w1 : W) × (o ≡ some (returned (home, none, w1)))
        × (p ≡ join_paths home (codes "enos-flight-control"))
        × UpToDate host (join_paths home (codes "enos-flight-control")) content r w1 w'
  in_home_dir-inv content r none why h = absurd (cc h)
  in_home_dir-inv content r (some panicked) why h = absurd (cc h)
  in_home_dir-inv content r (some (returned (home, some e, w))) why h = absurd (cc h)
  in_home_dir-inv content r (some (returned (home, none, w))) why h =
      let (same, current) = install_at-UpToDate host _ _ content r w why h in
      (home, w, refl, same, current)

  choose_path-At :
      (ir : InstallRequest W) (b : Bool) (content : Bytes) (r : Retrier W Bytes) (w : W) {p : Bytes}
      {w' : W}
      → SaysWhy host.env
      → ir.use_home_dir ≡ b
      → Ends (choose_path host ir b content r w) p w'
      → At ir content r w p w'
  choose_path-At ir true content r w why home h =
      let (dir, w1, told, same, current) = in_home_dir-inv content r _ why h in
      (_, w1, inr (dir, home, told, refl, same), current)
  choose_path-At ir false content r w why home h =
      let (same, current) = install_at-UpToDate host [] ir.path content r w why h in
      (ir.path, w, inl (home, refl, same, refl), current)

  -- The target is supported, and a binary is embedded for it that is put at the path.
  abbrev pub Provided : InstallRequest W → Bytes → Bytes → Retrier W Bytes → W → Bytes → W → Type 0
  Provided ir platform arch r w p w' =
      (supported_target host.binaries platform arch ≡ (true, none))
      × ((content : Bytes) × (read_target_file host.binaries platform arch ≡ (content, none))
          × At ir content r w p w')

  with_binary-inv :
      (ir : InstallRequest W) (f : Bytes × Option Err) (r : Retrier W Bytes) (w : W) {p : Bytes}
      {w' : W}
      → SaysWhy host.env
      → Ends (with_binary host ir f r w) p w'
      → (content : Bytes) × (f ≡ (content, none)) × At ir content r w p w'
  with_binary-inv ir (content, some e) r w why h = absurd (cc h)
  with_binary-inv ir (content, none) r w why h =
      (content, refl, choose_path-At ir ir.use_home_dir content r w why refl h)

  if_supported-Provided :
      (ir : InstallRequest W) (platform arch : Bytes) (s : Bool × Option Err) (r : Retrier W Bytes)
      (w : W) {p : Bytes} {w' : W}
      → SaysWhy host.env
      → supported_target host.binaries platform arch ≡ s
      → Ends (if_supported host ir platform arch s r w) p w'
      → Provided ir platform arch r w p w'
  if_supported-Provided ir platform arch (s, some e) r w why same h = absurd (cc h)
  if_supported-Provided ir platform arch (false, none) r w why same h = absurd (cc h)
  if_supported-Provided ir platform arch (true, none) r w why same h =
      (same, with_binary-inv ir _ r w why h)

  with_arch-inv :
      (ir : InstallRequest W) (platform : Bytes)
      (o : Option (Ran (Bytes × Option Err × TargetRequest W × W))) {p : Bytes} {w' : W}
      → SaysWhy host.env
      → Ends (with_arch host ir platform o) p w'
      → (arch : Bytes) × (req : TargetRequest W) × (w : W) × (o
          ≡ some (returned (arch, none, req, w)))
        × Provided ir platform arch req.retrier w p w'
  with_arch-inv ir platform none why h = absurd (cc h)
  with_arch-inv ir platform (some panicked) why h = absurd (cc h)
  with_arch-inv ir platform (some (returned (arch, some e, req, w))) why h = absurd (cc h)
  with_arch-inv ir platform (some (returned (arch, none, req, w))) why h =
      (arch, req, w, refl, if_supported-Provided ir platform arch _ req.retrier w why refl h)

  -- Both questions are answered with no error, the second by the retrier that the first has left.
  abbrev pub Installed : InstallRequest W → W → Bytes → W → Type 0
  Installed ir w p w' =
      (platform arch : Bytes) × (req1 req2 : TargetRequest W) × (w1 w2 : W) × (asked_sharing
          host.fuel host.env ir.target_request (platform_question host.tr.run)
          (unless_error format_platform) w
        ≡ some (returned (platform, none, req1, w1)))
      × (asked_sharing host.fuel host.env req1 (architecture_question host.tr.run)
            (unless_nil format_arch) w1
          ≡ some (returned (arch, none, req2, w2)))
      × Provided ir platform arch req2.retrier w2 p w'

  with_platform-Installed :
      (ir : InstallRequest W) (o : Option (Ran (Bytes × Option Err × TargetRequest W × W))) (w : W)
      {p : Bytes} {w' : W}
      → SaysWhy host.env
      → asked_sharing host.fuel host.env ir.target_request
          (platform_question host.tr.run)
          (unless_error format_platform)
          w
        ≡ o
      → Ends (with_platform host ir o) p w'
      → Installed ir w p w'
  with_platform-Installed ir none w why same h = absurd (cc h)
  with_platform-Installed ir (some panicked) w why same h = absurd (cc h)
  with_platform-Installed ir (some (returned (platform, some e, req, w1))) w why same h =
      absurd (cc h)
  with_platform-Installed ir (some (returned (platform, none, req, w1))) w why same h =
      let (arch, req2, w2, told, provided) = with_arch-inv ir platform _ why h in
      (platform, arch, req, req2, w1, w2, same, told, provided)

  -- Where InstallFlightControl ends with no error and a context that is done says why, the target has
  -- told its platform and its architecture, which are supported and have an embedded binary; at the
  -- path of the request, or in the home directory that the target has told where the request says so,
  -- there is a file with the binary's checksum, or CopyFile has placed the binary there; and the
  -- response has the path only where it is in the home directory, and else an empty one.
  pub install_flight_control-Installed :
      (ir : InstallRequest W) (w : W) {p : Bytes} {w' : W}
      → SaysWhy host.env
      → install_flight_control host ir w ≡ some (returned (p, none, w'))
      → Installed ir w p w'
  unfolding install_flight_control
  install_flight_control-Installed ir w {p} {w'} why h = elim (why w) [
    | inl live ↦ with_platform-Installed ir _ w why refl (rw live at h)
    | inr (e, over) ↦ absurd (not_done (rw over at h))
  ]
    where
      not_done : {e : Err} → Ends (unless_done host ir (done (some e)) w) p w' → ⊥
      not_done h = cc h

  -- A request that does not go to the home directory is answered with an empty path.
  pub install_flight_control-no_path :
      (ir : InstallRequest W) (w : W) {p : Bytes} {w' : W}
      → SaysWhy host.env
      → ir.use_home_dir ≡ false
      → install_flight_control host ir w ≡ some (returned (p, none, w'))
      → p ≡ []
  install_flight_control-no_path ir w why away h =
      let (_, _, _, _, _, _, _, _, (_, (_, _, (_, _, chosen, _)))) =
        install_flight_control-Installed ir w why h in
      elim chosen [
        | inl (_, _, lost, _) ↦ lost
        | inr (_, home, _, _, _) ↦ absurd (cc (sym away ∙ home))
      ]
