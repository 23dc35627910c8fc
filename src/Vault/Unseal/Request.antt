-- ===== src/Vault/Unseal/Request.antt =====
-- internal/remoteflight/vault/unseal.go: the request of an unsealing with its options, its response, and the
-- types of a seal.
use terraform_provider_enos.Prelude.{
  Bool, false, ◌||◌, Option, List, [], ◌∷◌, Bytes, bytes_eq, codes,
}
use terraform_provider_enos.Go.{apply_opts}
use terraform_provider_enos.Vault.Status.{CliRequest}
use terraform_provider_enos.Vault.State.{State}
use terraform_provider_enos.Vault.GetState.{StateRequest}

pub record UnsealRequest : Type 0 where
  pub state_request : StateRequest
  pub cli : CliRequest
  pub seal_type : Bytes
  pub unseal_keys : List Bytes

pub record UnsealResponse : Type 0 where
  pub prior_state : Option State
  pub post_state : Option State

abbrev pub seal_type_shamir : Bytes
seal_type_shamir = codes "shamir"

abbrev pub is_one_of : Bytes → List Bytes → Bool
is_one_of s [] = false
is_one_of s (t ∷ ts) = bytes_eq s t || is_one_of s ts

abbrev pub auto_seal_types : List Bytes
auto_seal_types =
    codes "alicloudkms"
    ∷ codes "awskms"
    ∷ codes "azurekeyvault"
    ∷ codes "gcpkms"
    ∷ codes "ocikms"
    ∷ codes "pkcs11"
    ∷ codes "transit"
    ∷ []

abbrev pub UnsealRequestOpt : Type 0
UnsealRequestOpt = UnsealRequest → UnsealRequest

-- The state request comes with the options for it applied.
abbrev pub new_unseal_request : StateRequest → CliRequest → List UnsealRequestOpt → UnsealRequest
new_unseal_request state_request cli opts =
    apply_opts opts
      (record { state_request = state_request; cli = cli; seal_type = []; unseal_keys = [] })

abbrev pub with_seal_type : Bytes → UnsealRequestOpt
with_seal_type typ u = record u { seal_type = typ }

abbrev pub with_unseal_keys : List Bytes → UnsealRequestOpt
with_unseal_keys unseal_keys u = record u { unseal_keys = unseal_keys }
