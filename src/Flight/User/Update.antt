-- ===== src/Flight/User/Update.antt =====
-- CreateUser and CreateOrUpdateUser of internal/remoteflight/user.go.
use terraform_provider_enos.Prelude.{
  ℕ, Option, none, some, [], ◌∷◌, ◌++◌, Bytes, codes, if◌then◌else◌,
}
use terraform_provider_enos.Go.{Err, new}
use terraform_provider_enos.Transport.{Run, Output, new_command}
use terraform_provider_enos.Flight.Errors.{wrap_error_with}
use terraform_provider_enos.Flight.Attempts.{Walk, on, failed, ◌>>=◌}
use terraform_provider_enos.Flight.User.{Pointer, User, differs, has_same_set_properties}
use terraform_provider_enos.Flight.User.Find.{Found, find_user}

abbrev pub flag_if : Bytes → Option Pointer → Bytes
flag_if flag none = []
flag_if flag (some p) = flag ++ p.value

abbrev pub gid_flag : Option Pointer → Bytes
gid_flag none = codes " -U"
gid_flag (some p) = codes " --gid " ++ p.value

unfoldable pub useradd_command : User → Bytes → Bytes
useradd_command user name =
    codes "sudo useradd -m --system"
    ++ (flag_if (codes " --home ") user.home_dir
        ++ (flag_if (codes " --shell ") user.shell
            ++ (flag_if (codes " --uid ") user.uid ++ (gid_flag user.gid ++ (codes " " ++ name)))))

abbrev pub usermod_command : Bytes → Bytes → Bytes → Bytes
usermod_command flag value name =
    codes "sudo usermod " ++ (flag ++ (codes " " ++ (value ++ (codes " " ++ name))))

module _ {W : Type 0} where
  abbrev pub walk_of : Output × W → Option Err → Walk W
  walk_of (out, w) none = on w
  walk_of (out, w) (some e) = failed (wrap_error_with e (out.stderr ∷ out.stdout ∷ [])) w

  -- A command whose error is wrapped with what it printed.
  abbrev pub run_wrapped : Run W → Bytes → W → Walk W
  run_wrapped tr cmd w = walk_of (tr (new_command cmd) w) (tr (new_command cmd) w).0.err

  abbrev pub found_after : Walk W → ℕ → (W × ℕ → Found W) → Found W
  found_after (failed e w) next find = (none, some e, (w, next))
  found_after (on w) next find = find (w, next)

  abbrev pub create_named : Run W → User → Option Pointer → W × ℕ → Found W
  create_named tr user none h = (none, some (new "invalid user: you must supply a username"), h)
  create_named tr user (some name) (w, next) =
      found_after (run_wrapped tr (useradd_command user name.value) w) next
        (find_user tr name.value)

  unfoldable pub create_user : Run W → Option User → W × ℕ → Found W
  unfolding find_user useradd_command
  create_user tr none h = (none, some (new "invalid user: you must supply a username"), h)
  create_user tr (some user) h = create_named tr user user.name h

  -- usermod, where the property is set and is not the same pointer.
  abbrev pub usermod : Run W → Bytes → Option Pointer → Option Pointer → Bytes → W → Walk W
  usermod tr flag none have name w = on w
  usermod tr flag (some want) have name w =
      if differs want have then run_wrapped tr (usermod_command flag want.value name) w else on w

  abbrev pub update : Run W → User → User → Bytes → W → Walk W
  update tr want have name w =
      usermod tr (codes "-d") want.home_dir have.home_dir name w
      >>= (λ w. usermod tr (codes "-s") want.shell have.shell name w)
      >>= (λ w. usermod tr (codes "-u") want.uid have.uid name w)
      >>= (λ w. usermod tr (codes "-g") want.gid have.gid name w)

  -- A found user is not nil where its search has no error.
  abbrev pub update_found : Run W → User → Bytes → Found W → Found W
  update_found tr want name (have, some e, h) = create_user tr (some want) h
  update_found tr want name (none, none, h) = (none, none, h)
  update_found tr want name (some have, none, (w, next)) =
      if has_same_set_properties (some want) (some have)
      then (some have, none, (w, next))
      else found_after (update tr want have name w) next (find_user tr name)

  abbrev pub update_named : Run W → User → Option Pointer → W × ℕ → Found W
  update_named tr want none h = (none, some (new "update user: invalid update specification"), h)
  update_named tr want (some name) h = update_found tr want name.value (find_user tr name.value h)

  unfoldable pub create_or_update_user : Run W → Option User → W × ℕ → Found W
  unfolding find_user create_user has_same_set_properties
  create_or_update_user tr none h =
      (none, some (new "update user: invalid update specification"), h)
  create_or_update_user tr (some want) h = update_named tr want want.name h
