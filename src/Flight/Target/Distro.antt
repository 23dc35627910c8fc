-- ===== src/Flight/Target/Distro.antt =====
-- TargetDistro and TargetDistroVersion of internal/remoteflight/target.go: /etc/os-release first, and then
-- lsb_release.
use terraform_provider_enos.Prelude.{ℕ, Option, none, some, [], ◌∷◌, Bytes, codes, String}
use terraform_provider_enos.Go.{Err, errorf, wrap, text, end, join, Ran, returned}
use terraform_provider_enos.Transport.{Run, Output, new_command}
use terraform_provider_enos.Retry.{Env, Func}
use terraform_provider_enos.Flight.OsRelease.{find_in_os_release, to_lower}
use terraform_provider_enos.Flight.Target.{asserted}
use terraform_provider_enos.Flight.Target.Request.{TargetRequest, Told, asked}

-- How an error joins those before it: TargetDistroVersion joins it with its own cause.
abbrev pub Joins : Type 0
Joins = Option Err → Option Err → Err → Option Err

abbrev pub joins_all : Joins
joins_all errs err e = join errs (some e)

abbrev pub joins_cause : Joins
joins_cause errs err e = join err (some e)

-- `fmt.Errorf("...%w...", err)` where err may be nil.
abbrev pub formatted : String → Output → Option Err → Err
formatted format out none = errorf format (text out.stderr end)
formatted format out (some e) = wrap format (text out.stderr end) e

abbrev pub joins_error : Joins → String → Output → Option Err → Option Err → Option Err
joins_error joins format out errs none = errs
joins_error joins format out errs (some e) =
    joins errs (some e) (wrap format (text out.stderr end) e)

-- What the two functions differ in: the key, the command, the errors' texts and how they join.
pub record Question : Type 0 where
  pub key : Bytes
  pub lsb_release : Bytes
  pub from_file : String
  pub from_content : String
  pub from_lsb : String
  pub joins : Joins

module _ {W : Type 0} where
  abbrev pub from_lsb_release :
      Question → Option Err → Output → W → Bytes → Option Err → Ran (Option Bytes × Option Err × W)
  from_lsb_release q errs out w stdout (some e) =
      returned (some [], joins_error q.joins q.from_lsb out errs (some e), w)
  from_lsb_release q errs out w [] none = returned (some [], errs, w)
  from_lsb_release q errs out w (c ∷ s) none = returned (some (to_lower (c ∷ s)), none, w)

  abbrev pub ask_lsb_release :
      Question → Run W → Option Err → W → Ran (Option Bytes × Option Err × W)
  ask_lsb_release q tr errs w =
      let ran : Output × W = tr (new_command q.lsb_release) w in
      from_lsb_release q errs ran.0 ran.1 ran.0.stdout ran.0.err

  -- The value of the key, unless it is empty or missing; the error is joined either way.
  abbrev pub from_found :
      Question → Run W → Output → W → Bytes × Option Err → Ran (Option Bytes × Option Err × W)
  from_found q tr out w (c ∷ s, none) = returned (some (c ∷ s), none, w)
  from_found q tr out w ([], none) =
      ask_lsb_release q tr (q.joins none none (formatted q.from_content out none)) w
  from_found q tr out w (value, some e) =
      ask_lsb_release q tr (q.joins none (some e) (formatted q.from_content out (some e))) w

  abbrev pub from_os_release :
      Question → Run W → Output → W → Bytes → Option Err → Ran (Option Bytes × Option Err × W)
  from_os_release q tr out w content (some e) =
      ask_lsb_release q tr (joins_error q.joins q.from_file out none (some e)) w
  from_os_release q tr out w [] none = ask_lsb_release q tr none w
  from_os_release q tr out w (c ∷ content) none =
      from_found q tr out w (find_in_os_release (c ∷ content) q.key)

  unfoldable pub ask_release : Question → Run W → Func W Bytes
  unfolding find_in_os_release to_lower
  ask_release q tr w =
      let ran : Output × W = tr (new_command (codes "cat /etc/os-release")) w in
      from_os_release q tr ran.0 ran.1 ran.0.stdout ran.0.err

abbrev pub distro_question : Question
distro_question = record {
  key = codes "ID";
  lsb_release = codes "lsb_release -si";
  from_file = "attempting to get distro from /etc/os-release: %w: STDERR: %s";
  from_content = "attempting to get distro from /etc/os-release content: %w: STDERR: %s";
  from_lsb = "attempting to get distro from lsb_release: %w: STDERR: %s";
  joins = joins_all;
}

abbrev pub version_question : Question
version_question = record {
  key = codes "VERSION_ID";
  lsb_release = codes "lsb_release -sr";
  from_file = "attempting to get distro version from /etc/os-release: %w: STDERR: %s";
  from_content = "attempting to get distro version from /etc/os-release content: %w: STDERR: %s";
  from_lsb = "attempting to get distro version from lsb_release: %w: STDERR: %s";
  joins = joins_cause;
}

module _ {W : Type 0} where
  unfoldable pub target_distro : ℕ → Env W → Run W → TargetRequest W → W → Told W
  unfolding asked ask_release
  target_distro fuel env tr req = asked fuel env req (ask_release distro_question tr) asserted

  unfoldable pub target_distro_version : ℕ → Env W → Run W → TargetRequest W → W → Told W
  unfolding asked ask_release
  target_distro_version fuel env tr req =
      asked fuel env req (ask_release version_question tr) asserted
