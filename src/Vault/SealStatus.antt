-- ===== src/Vault/SealStatus.antt =====
-- internal/remoteflight/vault/seal_status.go: /v1/sys/seal-status, read through enos-flight-control.
use terraform_provider_enos.Prelude.{
  Bool, true, false, Option, none, some, [], ◌∷◌, ◌++◌, Bytes, codes, if◌then◌else◌,
}
use terraform_provider_enos.Go.{Err, new, join}
use terraform_provider_enos.Transport.{Command, Output, Run, new_command}
use terraform_provider_enos.Vault.Status.{
  Unmarshal, error_if_empty, error_unless_empty, stderr_error,
}

pub record SealStatusRequest : Type 0 where
  pub vault_addr : Bytes
  pub flight_control_path : Bytes

-- A json.Number is its text.
pub record SealStatusResponseData : Type 0 where
  pub build_date : Bytes
  pub cluster_id : Bytes
  pub cluster_name : Bytes
  pub initialized : Bool
  pub migration : Bool
  pub number : Bytes
  pub nonce : Bytes
  pub progress : Bytes
  pub recovery_seal : Bool
  pub sealed : Bool
  pub storage_type : Bytes
  pub threshold : Bytes
  pub type : Bytes
  pub version : Bytes

-- The field Data, of the JSON key "data".
pub record SealStatusResponse : Type 0 where
  pub body : Option SealStatusResponseData

abbrev pub new_seal_status_response_data : SealStatusResponseData
new_seal_status_response_data = record {
  build_date = [];
  cluster_id = [];
  cluster_name = [];
  initialized = false;
  migration = false;
  number = [];
  nonce = [];
  progress = [];
  recovery_seal = false;
  sealed = false;
  storage_type = [];
  threshold = [];
  type = [];
  version = [];
}

abbrev pub new_seal_status_response : SealStatusResponse
new_seal_status_response = record { body = some new_seal_status_response_data }

-- SealStatusRequest.String
unfoldable pub to_string : SealStatusRequest → Bytes
to_string r =
    r.flight_control_path
    ++ (codes " download --stdout --url '" ++ (r.vault_addr ++ codes "/v1/sys/seal-status'"))

-- The two decoders: json.Unmarshal onto the response, and onto the pointer to its data, which may
-- be nil.
pub record Decoders : Type 0 where
  pub response : Unmarshal SealStatusResponse
  pub response_data : Unmarshal (Option SealStatusResponseData)

abbrev has_no_type : Option SealStatusResponseData → Bool
has_no_type none = true
has_no_type (some d) = no_text d.type
  where
    no_text : Bytes → Bool
    no_text [] = true
    no_text (_ ∷ _) = false

abbrev with_body :
    Option Err → Option SealStatusResponseData × Option Err → SealStatusResponse × Option Err
with_body err (d, e) = (record { body = d }, join err e)

-- Older versions answer with the bare data: a body without a type is decoded again onto the data.
abbrev decode_again :
    Decoders → Bytes → SealStatusResponse × Option Err → SealStatusResponse × Option Err
decode_again un stdout (res, err) =
    if has_no_type res.body then with_body err (un.response_data stdout res.body) else (res, err)

abbrev add_errors : Option Err → SealStatusResponse × Option Err → SealStatusResponse × Option Err
add_errors err (res, e) = (res, join err e)

-- The body's errors are joined to the error so far.
abbrev decode_stdout : Decoders → Option Err → Bytes → SealStatusResponse × Option Err
decode_stdout un err [] =
    (new_seal_status_response, join err (some (new "no JSON body was written to STDOUT")))
decode_stdout un err (c ∷ s) =
    decode_again un (c ∷ s) (add_errors err (un.response (c ∷ s) new_seal_status_response))

abbrev pub seal_status_from_output : Decoders → Output → SealStatusResponse × Option Err
seal_status_from_output un out =
    decode_stdout un (join out.err (error_unless_empty out.stderr stderr_error)) out.stdout

abbrev seal_status_error : Err → Option Err
seal_status_error e = join (some (new "get vault seal status: vault read sys/seal-status")) (some e)

abbrev seal_status_result : SealStatusResponse × Option Err → Option SealStatusResponse × Option Err
seal_status_result (res, none) = (some res, none)
seal_status_result (res, some e) = (none, seal_status_error e)

abbrev missing_argument : Option Err → SealStatusRequest → Option Err
missing_argument ctx_err req =
    join
      (join ctx_err (
        error_if_empty req.flight_control_path (new "you must supply an enos-flight-control path")))
      (error_if_empty req.vault_addr (new "you must supply a vault listen address"))

abbrev run_seal_status :
    {W : Type 0} → Decoders → Output × W → Option SealStatusResponse × Option Err × W
run_seal_status un (out, w) =
    let (res, err) = seal_status_result (seal_status_from_output un out) in (res, err, w)

abbrev seal_status_unless :
    {W : Type 0}
    → Option Err
    → Decoders
    → Run W
    → Command
    → W
    → Option SealStatusResponse × Option Err × W
seal_status_unless (some e) un tr cmd w = (none, seal_status_error e, w)
seal_status_unless none un tr cmd w = run_seal_status un (tr cmd w)

-- GetSealStatus: `ctx_err` is ctx.Err() where the context is done.
unfoldable pub get_seal_status :
    {W : Type 0}
    → Decoders
    → Run W
    → Option Err
    → SealStatusRequest
    → W
    → Option SealStatusResponse × Option Err × W
unfolding to_string
get_seal_status un tr ctx_err req w =
    seal_status_unless (missing_argument ctx_err req) un tr (new_command (to_string req)) w

abbrev sealed_of : Option SealStatusResponseData → Bool × Option Err
sealed_of none = (true, some (new "seal response does not have seal data"))
sealed_of (some d) = (d.sealed, none)

-- SealStatusResponse.IsSealed, on a pointer that may be nil.
unfoldable pub is_sealed : Option SealStatusResponse → Bool × Option Err
is_sealed none = (true, some (new "seal response is nil"))
is_sealed (some s) = sealed_of s.body
