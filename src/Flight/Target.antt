-- ===== src/Flight/Target.antt =====
-- internal/remoteflight/target.go: what a target is, each read by commands under the request's retrier.
pub mod Request
pub mod Distro
pub mod HomeDir
pub mod Gather
pub mod Laws
pub mod Answers
use terraform_provider_enos.Prelude.{ℕ, Option, none, some, [], ◌∷◌, Bytes, codes, String}
use terraform_provider_enos.Go.{Err, errorf, wrap, text, end, Ran, returned, panicked, ◌>>=◌, deref}
use terraform_provider_enos.Transport.{Run, Output, new_command}
use terraform_provider_enos.Retry.{Env, Func}
use terraform_provider_enos.Flight.OsRelease.{to_lower, format_platform, format_arch}
use terraform_provider_enos.Flight.Target.Request.{TargetRequest, Told, asked}

-- `if err != nil || v == nil { return "", err }; return format(v.(string)), nil`
abbrev pub unless_nil : (Bytes → Bytes) → Option Bytes → Option Err → Ran (Bytes × Option Err)
unless_nil format res (some e) = returned ([], some e)
unless_nil format none none = returned ([], none)
unless_nil format (some v) none = returned (format v, none)

-- `if err != nil { return "", err }; return format(v.(string)), nil`, which panics on nil.
abbrev pub unless_error : (Bytes → Bytes) → Option Bytes → Option Err → Ran (Bytes × Option Err)
unless_error format res (some e) = returned ([], some e)
unless_error format none none = panicked
unless_error format (some v) none = returned (format v, none)

-- `return v.(string), err`, which panics on nil.
abbrev pub asserted : Option Bytes → Option Err → Ran (Bytes × Option Err)
asserted res err = deref res >>= λ v. returned (v, err)

abbrev pub as_it_is : Bytes → Bytes
as_it_is s = s

-- The transport's type.
pub data TransportType : Type 0 where
  ssh kubernetes nomad : TransportType
  other : Bytes → TransportType

abbrev pub blank : String → Output → Err
blank format out = errorf format (text out.stderr end)

module _ {W : Type 0} where
  abbrev pub printed :
      String
      → (Output → Err)
      → Output
      → W
      → Bytes
      → Option Err
      → Ran (Option Bytes × Option Err × W)
  printed format none_said out w stdout (some e) =
      returned (some [], some (wrap format (text out.stderr end) e), w)
  printed format none_said out w [] none = returned (some [], some (none_said out), w)
  printed format none_said out w (c ∷ s) none = returned (some (c ∷ s), none, w)

  -- One command, which has to print something, and its two errors.
  unfoldable pub one_command : Run W → Bytes → String → (Output → Err) → Func W Bytes
  one_command tr cmd format none_said w =
      let ran : Output × W = tr (new_command cmd) w in
      printed format none_said ran.0 ran.1 ran.0.stdout ran.0.err

  abbrev pub architecture_question : Run W → Func W Bytes
  architecture_question tr =
      one_command tr (codes "uname -m") "determining target host architecture: %w, STDERR:%s"
        (blank "failed to determine architecture, STDERR: %s")

  abbrev pub platform_question : Run W → Func W Bytes
  platform_question tr =
      one_command tr (codes "uname -s") "determining target host platform: %w: STDERR: %s"
        (blank "failed to determine platform, STDERR: %s")

  unfoldable pub target_architecture : ℕ → Env W → Run W → TargetRequest W → W → Told W
  unfolding asked one_command format_arch
  target_architecture fuel env tr req =
      asked fuel env req (architecture_question tr) (unless_nil format_arch)

  unfoldable pub target_hostname : ℕ → Env W → Run W → TargetRequest W → W → Told W
  unfolding asked one_command
  target_hostname fuel env tr req =
      asked fuel env req
        (one_command tr (codes "uname -n") "determining target hostname: %w, STDERR: %s"
          (blank "failed to determine hostname, STDERR: %s"))
        (unless_error as_it_is)

  unfoldable pub target_platform : ℕ → Env W → Run W → TargetRequest W → W → Told W
  unfolding asked one_command to_lower
  target_platform fuel env tr req =
      asked fuel env req (platform_question tr) (unless_error format_platform)

  unfoldable pub target_platform_version : ℕ → Env W → Run W → TargetRequest W → W → Told W
  unfolding asked one_command
  target_platform_version fuel env tr req =
      asked fuel env req
        (one_command tr (codes "uname -r")
          "determining target host platform version: %w: STDERR: %s"
          (blank "failed to determine platform version: STDERR: %s"))
        (unless_error as_it_is)

  -- The error of an empty answer prints the error that is nil there, not the output.
  unfoldable pub target_process_manager :
      ℕ → Env W → TransportType → Run W → TargetRequest W → W → Told W
  unfolding asked one_command
  target_process_manager fuel env ssh tp req w =
      asked fuel env req
        (one_command tp (codes "ps -p 1 -c -o command=")
          "failed to determine target process manager: %w: STDERR: %s"
          (λ out. errorf "failed to determine target process manager, STDERR: %s" end))
        (unless_nil as_it_is) w
  target_process_manager fuel env kubernetes tp req w =
      some (returned (codes "kubernetes", none, w))
  target_process_manager fuel env nomad tp req w = some (returned (codes "nomad", none, w))
  target_process_manager fuel env (other name) tp req w = some (
      returned (
        [],
        some (
            errorf "failed to determine target process manager: unsupported transport type: %s"
              (text name end)),
        w,
      ))
