-- ===== src/Flight/Script/Laws.antt =====
-- What RunScript of internal/remoteflight/script.go has done where it ends with no error.
use terraform_provider_enos.Prelude.{
  ◌≡◌, refl, ◌⊎◌, inl, inr, ℕ, Bool, true, false, Option, none, some, Option-cases, Bytes,
}
use terraform_provider_enos.Go.{Err, Ran, returned, panicked}
use terraform_provider_enos.Transport.{Command, Run}
use terraform_provider_enos.Retry.{Env}
use terraform_provider_enos.Retry.Outcome.{SaysWhy}
use terraform_provider_enos.Ui.{Buffered}
use terraform_provider_enos.Flight.Attempts.{Transport}
use terraform_provider_enos.Flight.File.{tmp_path}
use terraform_provider_enos.Flight.File.Laws.{Placed, copy_file-Placed}
use terraform_provider_enos.Flight.Script.{
  RunScriptRequest, RunScriptResponse, script_command, cleanup_command, unless_kept, executed,
  execute, after_copy, run_script,
}

module _ {W : Type 0} where
  -- A command ends with no error and leaves the target at `w'`.
  abbrev pub Done : Run W → Command → W → W → Type 0
  Done tr command w w' = ((tr command w).0.err ≡ none) × ((tr command w).1 ≡ w')

  unless_kept-Done :
      (keep : Bool) (tr : Run W) (cleanup : Command) (ui : Buffered) (w : W)
      {res : RunScriptResponse} {w' : W}
      → unless_kept keep tr cleanup ui w ≡ (res, none, w')
      → ((keep ≡ true) × (w ≡ w')) ⊎ ((keep ≡ false) × Done tr cleanup w w')
  unless_kept-Done true tr cleanup ui w h = inl (refl, cc h)
  unless_kept-Done false tr cleanup ui w h = elim (Option-cases (tr cleanup w).0.err) [
    | inl ok ↦ inr (refl, (ok, cc (rw ok at h)))
    | inr (e, bad) ↦ absurd (cc (rw bad at h))
  ]

module _ {W C : Type 0} where
  -- The script ran with no error, and then it was removed with no error, or the request keeps it.
  abbrev pub Executed : Run W → RunScriptRequest W C → W → W → Type 0
  Executed tr req w w' =
      (w1 : W) × Done tr (script_command req) w w1
      × (((req.no_cleanup ≡ true) × (w1 ≡ w'))
          ⊎ ((req.no_cleanup ≡ false) × Done tr (cleanup_command req) w1 w'))

  execute-Executed :
      (tr : Run W) (req : RunScriptRequest W C) (w : W) {res : RunScriptResponse} {w' : W}
      → execute tr req w ≡ (res, none, w')
      → Executed tr req w w'
  unfolding execute
  execute-Executed tr req w h = elim (Option-cases (tr (script_command req) w).0.err) [
    | inl ok ↦ (
      (tr (script_command req) w).1,
      (ok, refl),
      unless_kept-Done req.no_cleanup tr (cleanup_command req) _ _ (rw ok at h),
    )
    | inr (e, bad) ↦ absurd (cc (rw bad at h))
  ]

  after_copy-Executed :
      (tr : Run W) (req : RunScriptRequest W C) (o : Option (Ran (Option Err × W)))
      {res : RunScriptResponse} {w' : W}
      → after_copy tr req o ≡ some (returned (res, none, w'))
      → (w1 : W) × (o ≡ some (returned (none, w1))) × Executed tr req w1 w'
  after_copy-Executed tr req none h = absurd (cc h)
  after_copy-Executed tr req (some panicked) h = absurd (cc h)
  after_copy-Executed tr req (some (returned (some e, w))) h = absurd (cc h)
  after_copy-Executed tr req (some (returned (none, w))) {res} h =
      (w, refl, execute-Executed tr req w {res = res} (cc h))

  -- Where RunScript ends with no error and a context that is done says why, the script was placed on
  -- the target by one attempt of CopyFile, ran with no error, and was then removed with no error
  -- unless the request says to keep it, and nothing else happened to the target since.
  pub run_script-Executed :
      (fuel : ℕ) (env : Env W) (tr : Transport W C) (id : Bytes) (req : RunScriptRequest W C)
      (w : W) {res : RunScriptResponse} {w' : W}
      → SaysWhy env
      → run_script fuel env tr id req w ≡ some (returned (res, none, w'))
      → (w0 : W) × (w1 : W) × Placed tr req.copy_file_request
          (tmp_path req.copy_file_request id)
          w0
          w1
        × Executed tr.run req w1 w'
  unfolding run_script
  run_script-Executed fuel env tr id req w why h =
      let (w1, copied, executed) = after_copy-Executed tr.run req _ h in
      let (w0, placed) = copy_file-Placed fuel env tr id req.copy_file_request w why copied in
      (w0, w1, placed, executed)
