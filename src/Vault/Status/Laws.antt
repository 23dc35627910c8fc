-- ===== src/Vault/Status/Laws.antt =====
-- What `vault status` is read as.
use terraform_provider_enos.Prelude.{
  ℕ, ◌≡◌, refl, ◌↔◌, ◌⊎◌, Bool, true, false, Option, none, some, [], ◌∷◌, Bytes, arith, ◌≢◌,
  if◌then◌else◌, sym, ap, ◌∙◌,
}
use terraform_provider_enos.Go.{join-none, Err, join, exit_code}
use terraform_provider_enos.Transport.{Output, Run}
use terraform_provider_enos.Vault.Status.{
  StatusResponse, CliRequest, Unmarshal, is_sealed, get_status, status_command,
  status_initialized_unsealed, status_sealed, status_unless, missing_argument,
  vault_status_code_from_error, status_of_run, new_status_response, seal_is_known, status_result,
  status_from_output, code_of_exit, stderr_error, error_unless_empty, unmarshal_stdout,
  error_if_empty,
}

-- The exit code and the body both say `sealed`.
abbrev pub Says : Bool → Option StatusResponse → Type 0
Says b none = ⊥
Says true (some s) = (s.status_code ≡ status_sealed) × (s.sealed ≡ true)
Says false (some s) = (s.status_code ≡ status_initialized_unsealed) × (s.sealed ≡ false)

-- A status is known to be sealed or unsealed exactly when its exit code and its body both say so.
pub is_sealed-Says : (b : Bool) (o : Option StatusResponse) → (is_sealed o ≡ (b, none)) ↔ Says b o
unfolding is_sealed
is_sealed-Says b none = ground arith
is_sealed-Says true (some s) = ground arith
is_sealed-Says false (some s) = ground arith

-- The exit code of a run that a status comes from: 0 or 2, and 0 for a run that did not fail.
abbrev pub RunCode : Option Err → ℕ → Type 0
RunCode none c = c ≡ status_initialized_unsealed
RunCode (some e) c =
    (exit_code e ≡ some c) × ((c ≡ status_initialized_unsealed) ⊎ (c ≡ status_sealed))

-- The run wrote a body and nothing else, and the body was decoded over the exit code.
abbrev pub RunSays : Unmarshal StatusResponse → Output → StatusResponse → Type 0
RunSays un out res =
    (c : ℕ) × RunCode out.err c
    × (out.stderr ≡ [])
    × (out.stdout ≢ [])
    × (un out.stdout (record new_status_response { status_code = c }) ≡ (res, none))

known_error :
    (e : Err) (o : Option ℕ) (r : ℕ × Option Err)
    → exit_code e ≡ o
    → code_of_exit e o ≡ r
    → (if seal_is_known r.0 then none else join (some e) r.1) ≡ none
    → RunCode (some e) r.0
known_error e none r x h k = ground arith
known_error e (some c) r x h k = ground arith

known_code :
    (err : Option Err) (stderr : Bytes)
    → stderr ≡ []
    → (let (c, x) = status_of_run err stderr in if seal_is_known c then none else join err x) ≡ none
    → RunCode err (status_of_run err stderr).0
unfolding status_of_run vault_status_code_from_error
known_code none [] s k = refl
known_code none (c ∷ cs) s k = ground arith
known_code (some e) stderr s k =
    known_error e (exit_code e) (code_of_exit e (exit_code e)) refl refl k

no_stderr : (stderr : Bytes) → error_unless_empty stderr stderr_error ≡ none → stderr ≡ []
no_stderr [] h = refl
no_stderr (c ∷ s) h = ground arith

pub body_is_decoded :
    {T : Type 0} (un : Unmarshal T) (stdout : Bytes) (t : T)
    → (unmarshal_stdout un stdout t).1 ≡ none
    → (stdout ≢ []) × (un stdout t ≡ ((unmarshal_stdout un stdout t).0, none))
body_is_decoded un [] t h = ground arith
body_is_decoded un (c ∷ s) t h = (λ e. ground arith, rw (sym h) refl)

result_none :
    (r : StatusResponse × Option Err) (res : StatusResponse)
    → status_result r ≡ (some res, none)
    → (r.0 ≡ res) × (r.1 ≡ none)
result_none (t, none) res h = (cc h, refl)
result_none (t, some e) res h = ground arith

pub given : (s : Bytes) (e : Err) → error_if_empty s e ≡ none → s ≢ []
given [] e p = absurd (ground arith)
given (c ∷ s) e p = λ q. ground arith

from_output :
    (un : Unmarshal StatusResponse) (out : Output) (res : StatusResponse)
    → status_result (status_from_output un out (status_of_run out.err out.stderr))
      ≡ (some res, none)
    → RunSays un out res
from_output un out res h =
    let (r, e) = result_none (status_from_output un out (status_of_run out.err out.stderr)) res h in
    let (ce, j) = (join-none _ _).0 e in
    let (c, s) = (join-none _ _).0 ce in
    let stderr = no_stderr out.stderr s in
    let (o, d) = body_is_decoded un out.stdout _ j in
    (_, known_code out.err out.stderr stderr c, stderr, o, d ∙ ap (λ t. (t, none)) r)

-- GetStatus returns a response only if the context was not done, a binary and an address were given,
-- and the run of `vault status` exited with 0 or 2, wrote nothing to STDERR, and wrote a body that was
-- decoded, over the exit code, to that response.
pub get_status-RunSays :
    {W : Type 0} (un : Unmarshal StatusResponse) (tr : Run W) (ctx_err : Option Err)
    (req : CliRequest) (w : W) (res : StatusResponse) (w' : W)
    → get_status un tr ctx_err req w ≡ (some res, none, w')
    → (ctx_err ≡ none)
      × (req.bin_path ≢ [])
      × (req.vault_addr ≢ [])
      × RunSays un (tr (status_command req) w).0 res
unfolding get_status
get_status-RunSays un tr ctx_err req w res w' h = go (missing_argument ctx_err req) refl h
  where
    go :
        (m : Option Err)
        → missing_argument ctx_err req ≡ m
        → status_unless m un tr req w ≡ (some res, none, w')
        → (ctx_err ≡ none)
          × (req.bin_path ≢ [])
          × (req.vault_addr ≢ [])
          × RunSays un (tr (status_command req) w).0 res
    go (some e) m h = ground arith
    go none m h =
        let (cb, a) = (join-none _ _).0 m in
        let (c, b) = (join-none _ _).0 cb in
        (
          c,
          given req.bin_path _ b,
          given req.vault_addr _ a,
          from_output un (tr (status_command req) w).0 res (ap (λ t. (t.0, t.1)) h),
        )
