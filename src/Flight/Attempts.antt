-- ===== src/Flight/Attempts.antt =====
-- What the commands of internal/remoteflight share: a transport that also copies, a command that is run
-- again with sudo where it fails, and a call of Retry that leaves a target behind.
pub mod Rules
use terraform_provider_enos.Prelude.{ℕ, Option, none, some, List, [], ◌∷◌, ◌++◌, Bytes, codes}
use terraform_provider_enos.Go.{Err, Ran, returned, panicked}
use terraform_provider_enos.Transport.{Run, Output, new_command}
use terraform_provider_enos.Flight.Errors.{wrap_error_with}
use terraform_provider_enos.Retry.{
  Env, Func, Retrier, RetrierOpt, new_retrier, with_retrier_func, retry_loop, start, Loop,
}

-- Transport, of which Run and Copy are used; `C` is Copyable.
pub record Transport (W C : Type 0) : Type 0 where
  pub run : Run W
  pub copy : C → Bytes → W → Option Err × W

abbrev pub wrapped : Err → Output → Bytes → Err
wrapped e out message = wrap_error_with e (out.stdout ∷ out.stderr ∷ message ∷ [])

abbrev pub with_sudo : Bytes → Bytes
with_sudo cmd = codes "sudo " ++ cmd

-- How far a sequence of commands is: it goes on, or has failed.
pub data Walk (W : Type 0) : Type 0 where
  on : W → Walk W
  failed : Err → W → Walk W

module _ {W : Type 0} where
  infixl 5 ◌>>=◌
  abbrev pub ◌>>=◌ : Walk W → (W → Walk W) → Walk W
  on w >>= k = k w
  failed e w >>= k = failed e w

  abbrev sudo_result : Err → Output → Bytes → Option Err → W → Walk W
  sudo_result first out message none w = on w
  sudo_result first out message (some e) w = failed (Err.joined first (wrapped e out message)) w

  abbrev then_sudo : Err → Output × W → Bytes → Walk W
  then_sudo first (out, w) message = sudo_result first out message out.err w

  abbrev plain_result : Run W → Output → Option Err → W → Bytes → Bytes → Bytes → Walk W
  plain_result tr out none w sudo message sudo_message = on w
  plain_result tr out (some e) w sudo message sudo_message =
      then_sudo (wrapped e out message) (tr (new_command sudo) w) sudo_message

  abbrev first_run : Run W → Output × W → Bytes → Bytes → Bytes → Walk W
  first_run tr (out, w) sudo message sudo_message =
      plain_result tr out out.err w sudo message sudo_message

  -- A command, and where it fails the same with sudo; both errors are joined where both fail.
  unfoldable pub run_or_sudo : Run W → Bytes → Bytes → Bytes → Bytes → W → Walk W
  run_or_sudo tr cmd sudo message sudo_message w =
      first_run tr (tr (new_command cmd) w) sudo message sudo_message

module _ {W A : Type 0} where
  abbrev pub after_loop : Option (Ran (Loop W A)) → Option (Ran (Option Err × W))
  after_loop none = none
  after_loop (some panicked) = some panicked
  after_loop (some (returned s)) = some (returned (s.err, s.world))

  abbrev started : ℕ → Env W → Retrier W A × Option Err → W → Option (Ran (Option Err × W))
  started fuel env (r, some e) w = some (returned (some e, w))
  started fuel env (r, none) w = after_loop (retry_loop fuel env (start r w))

  -- NewRetrier with a function after the other options, and Retry with what it makes.
  unfoldable pub retried :
      ℕ → Env W → List (RetrierOpt W A) → Func W A → W → Option (Ran (Option Err × W))
  unfolding new_retrier with_retrier_func retry_loop start
  retried fuel env opts f w = started fuel env (new_retrier (opts ++ with_retrier_func f ∷ [])) w
