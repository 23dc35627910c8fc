-- ===== src/Flight/Target/HomeDir.antt =====
-- TargetHomeDir of internal/remoteflight/target.go.
use terraform_provider_enos.Prelude.{ℕ, Option, none, some, [], ◌∷◌, ◌++◌, Bytes, codes, String}
use terraform_provider_enos.Go.{Err, wrap, text, end, join, Ran, returned}
use terraform_provider_enos.Transport.{Run, Output, new_command}
use terraform_provider_enos.Retry.{Env, Func}
use terraform_provider_enos.Flight.Target.{unless_nil, as_it_is}
use terraform_provider_enos.Flight.Target.Request.{TargetRequest, Told, asked}

abbrev pub passwd_command : Bytes → Bytes
passwd_command me = codes "grep " ++ (me ++ codes " /etc/passwd | cut -d: -f 6")

module _ {W : Type 0} where
  -- The text that a command prints, where it has no error and prints one; else its error is joined.
  abbrev pub told_or :
      String
      → Option Err
      → Output
      → W
      → Bytes
      → Option Err
      → (Option Err → W → Ran (Option Bytes × Option Err × W))
      → Ran (Option Bytes × Option Err × W)
  told_or format err out w stdout (some e) next =
      next (join err (some (wrap format (text out.stderr end) e))) w
  told_or format err out w [] none next = next err w
  told_or format err out w (c ∷ s) none next = returned (some (c ∷ s), none, w)

  abbrev pub try_command :
      Run W
      → Bytes
      → String
      → Option Err
      → W
      → (Option Err → W → Ran (Option Bytes × Option Err × W))
      → Ran (Option Bytes × Option Err × W)
  try_command tr cmd format err w next =
      let ran : Output × W = tr (new_command cmd) w in
      told_or format err ran.0 ran.1 ran.0.stdout ran.0.err next

  abbrev pub no_home : Option Err → W → Ran (Option Bytes × Option Err × W)
  no_home err w = returned (some [], err, w)

  -- `if err1 != nil && me != ""`: the name is used where its command has failed.
  abbrev pub from_whoami :
      Run W → Option Err → Output → W → Bytes → Option Err → Ran (Option Bytes × Option Err × W)
  from_whoami tr err out w me none = no_home err w
  from_whoami tr err out w [] (some e) =
      no_home
        (join err
          (some (wrap "getting target user with 'whoami': %w, STDERR: %s" (text out.stderr end) e)))
        w
  from_whoami tr err out w (c ∷ me) (some e) =
      try_command tr (passwd_command (c ∷ me))
        "getting target user %s from /etc/password: %w: STDERR: %s"
        (join err
          (some (wrap "getting target user with 'whoami': %w, STDERR: %s" (text out.stderr end) e)))
        w no_home

  unfoldable pub find_home : Run W → Func W Bytes
  find_home tr w =
      try_command tr (codes "echo $HOME")
        "getting target home directory with $HOME env var: %w: STDERR: %s" none w
        (λ err w.
          try_command tr (codes "echo ~")
            "getting target home directory with ~ expansion: %w: STDERR: %s" err w
            (λ err w.
              let ran : Output × W = tr (new_command (codes "whoami")) w in
              from_whoami tr err ran.0 ran.1 ran.0.stdout ran.0.err))

  unfoldable pub target_home_dir : ℕ → Env W → Run W → TargetRequest W → W → Told W
  unfolding asked find_home
  target_home_dir fuel env tr req = asked fuel env req (find_home tr) (unless_nil as_it_is)
