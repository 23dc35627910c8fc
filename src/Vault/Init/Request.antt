-- ===== src/Vault/Init/Request.antt =====
-- internal/remoteflight/vault/init.go: the request of an initialization with its options, its validation, the
-- command that it prints and the response. An int is a ℤ, -1 where an argument is not given.
use terraform_provider_enos.Prelude.{
  zero, suc, Bool, true, false, ◌==◌, Option, none, some, List, [], ◌∷◌, ◌++◌, Bytes, codes,
  if◌then◌else◌,
}
use terraform_provider_enos.Go.{apply_opts, Err, new, ℤ, pos, negsuc, decimal}
use terraform_provider_enos.Flight.Paths.{join_with}
use terraform_provider_enos.Vault.Status.{CliRequest}
use terraform_provider_enos.Vault.State.{State}
use terraform_provider_enos.Vault.GetState.{StateRequest}

pub record InitArguments : Type 0 where
  pub key_shares : ℤ
  pub key_threshold : ℤ
  pub pgp_keys : List Bytes
  pub recovery_shares : ℤ
  pub recovery_threshold : ℤ
  pub recovery_pgp_keys : List Bytes
  pub root_token_pgp_key : Bytes
  pub consul_auto : Bool
  pub consul_service : Bytes
  pub stored_shares : ℤ

pub record InitRequest : Type 0 where
  pub state_request : StateRequest
  pub cli : CliRequest
  pub arguments : InitArguments

pub record InitResponse : Type 0 where
  pub unseal_keys_b64 : List Bytes
  pub unseal_keys_hex : List Bytes
  pub unseal_shares : Bytes
  pub unseal_threshold : Bytes
  pub recovery_keys_b64 : List Bytes
  pub recovery_keys_hex : List Bytes
  pub recovery_keys_shares : Bytes
  pub recovery_keys_threshold : Bytes
  pub root_token : Bytes
  pub prior_state : Option State
  pub post_state : Option State

abbrev pub InitRequestOpt : Type 0
InitRequestOpt = InitRequest → InitRequest

abbrev pub minus_one : ℤ
minus_one = negsuc 0

abbrev pub default_arguments : InitArguments
default_arguments = record {
  key_shares = minus_one;
  key_threshold = minus_one;
  pgp_keys = [];
  recovery_shares = minus_one;
  recovery_threshold = minus_one;
  recovery_pgp_keys = [];
  root_token_pgp_key = [];
  consul_auto = false;
  consul_service = [];
  stored_shares = minus_one;
}

-- The state request comes with the options for it applied.
abbrev pub new_init_request : StateRequest → CliRequest → List InitRequestOpt → InitRequest
new_init_request state_request cli opts =
    apply_opts opts
      (record { state_request = state_request; cli = cli; arguments = default_arguments })

abbrev pub on_arguments : (InitArguments → InitArguments) → InitRequestOpt
on_arguments f u = record u { arguments = f u.arguments }

abbrev pub with_key_shares : ℤ → InitRequestOpt
with_key_shares shares = on_arguments (λ a. record a { key_shares = shares })

abbrev pub with_key_threshold : ℤ → InitRequestOpt
with_key_threshold thres = on_arguments (λ a. record a { key_threshold = thres })

abbrev pub with_pgp_keys : List Bytes → InitRequestOpt
with_pgp_keys keys = on_arguments (λ a. record a { pgp_keys = keys })

abbrev pub with_recovery_shares : ℤ → InitRequestOpt
with_recovery_shares shares = on_arguments (λ a. record a { recovery_shares = shares })

abbrev pub with_recovery_threshold : ℤ → InitRequestOpt
with_recovery_threshold thres = on_arguments (λ a. record a { recovery_threshold = thres })

abbrev pub with_recovery_pgp_keys : List Bytes → InitRequestOpt
with_recovery_pgp_keys keys = on_arguments (λ a. record a { recovery_pgp_keys = keys })

abbrev pub with_root_token_pgp_key : Bytes → InitRequestOpt
with_root_token_pgp_key key = on_arguments (λ a. record a { root_token_pgp_key = key })

abbrev pub with_consul_auto : Bool → InitRequestOpt
with_consul_auto auto = on_arguments (λ a. record a { consul_auto = auto })

abbrev pub with_consul_service : Bytes → InitRequestOpt
with_consul_service service = on_arguments (λ a. record a { consul_service = service })

abbrev pub with_stored_shares : ℤ → InitRequestOpt
with_stored_shares shares = on_arguments (λ a. record a { stored_shares = shares })

abbrev pub int_eq : ℤ → ℤ → Bool
int_eq (pos a) (pos b) = a == b
int_eq (pos a) (negsuc b) = false
int_eq (negsuc a) (pos b) = false
int_eq (negsuc a) (negsuc b) = a == b

abbrev pub shares_error : ℤ → ℤ → Option Err
shares_error stored key_shares =
    if int_eq stored minus_one
    then none
    else if int_eq stored key_shares
    then none
    else some (new "the number of stored shares must be equal to key shares")

abbrev pub validate_texts : Bytes → Bytes → Option Err → Option Err
validate_texts [] addr rest = some (new "no binary path has been supplied")
validate_texts (c ∷ bin) [] rest = some (new "to vault address has been supplied")
validate_texts (c ∷ bin) (d ∷ addr) rest = rest

-- InitRequest.Validate.
unfoldable pub validate : InitRequest → Option Err
validate r =
    validate_texts r.cli.bin_path r.cli.vault_addr
      (shares_error r.arguments.stored_shares r.arguments.key_shares)

-- `%d`
abbrev pub int_text : ℤ → Bytes
int_text (pos n) = decimal n
int_text (negsuc n) = b'-' ∷ decimal (suc n)

abbrev pub int_flag : Bytes → ℤ → Bytes
int_flag flag (pos n) = flag ++ int_text (pos n)
int_flag flag (negsuc zero) = []
int_flag flag (negsuc (suc n)) = flag ++ int_text (negsuc (suc n))

abbrev pub text_flag : Bytes → Bytes → Bytes
text_flag flag [] = []
text_flag flag (c ∷ s) = flag ++ (codes "'" ++ ((c ∷ s) ++ codes "'"))

abbrev pub texts_flag : Bytes → List Bytes → Bytes
texts_flag flag [] = []
texts_flag flag (s ∷ texts) =
    flag ++ (codes "'" ++ (join_with (codes ",") (s ∷ texts) ++ codes "'"))

abbrev pub bool_flag : Bytes → Bool → Bytes
bool_flag flag true = flag
bool_flag flag false = []

abbrev pub flags : InitArguments → Bytes
flags a =
    int_flag (codes " -key-shares=") a.key_shares
    ++ (int_flag (codes " -key-threshold=") a.key_threshold
        ++ (texts_flag (codes " -pgp-keys=") a.pgp_keys
            ++ (int_flag (codes " -recovery-shares=") a.recovery_shares
                ++ (int_flag (codes " -recovery-threshold=") a.recovery_threshold
                    ++ (texts_flag (codes " -recovery-pgp-keys=") a.recovery_pgp_keys
                        ++ (text_flag (codes " -root-token-pgp-key=") a.root_token_pgp_key
                            ++ (bool_flag (codes " -consul-auto=true") a.consul_auto
                                ++ (text_flag (codes " -consul-service=") a.consul_service
                                    ++ int_flag (codes " -stored-shares=") a.stored_shares))))))))

-- InitRequest.String, on a request that is not nil.
unfoldable pub init_command : InitRequest → Bytes
unfolding decimal
init_command r = r.cli.bin_path ++ (codes " operator init -format=json" ++ flags r.arguments)
