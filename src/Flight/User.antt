-- ===== src/Flight/User.antt =====
-- internal/remoteflight/user.go: users of a target, found by three commands in turn, created and updated. A
-- *string is an address with the text that stands there: the code compares some of the pointers
-- themselves. `next` is the first address that is not in use; `W × ℕ` is the target with it.
pub mod Find
pub mod Update
pub mod Fresh
pub mod Laws
pub mod Decoded
use terraform_provider_enos.Prelude.{
  ℕ, Bool, true, false, not, Option, none, some, List, Bytes, ◌==◌, if◌then◌else◌,
}
use terraform_provider_enos.Go.{apply_opts}

pub record Pointer : Type 0 where
  pub address : ℕ
  pub value : Bytes

pub record User : Type 0 where
  pub name : Option Pointer
  pub home_dir : Option Pointer
  pub shell : Option Pointer
  pub gid : Option Pointer
  pub uid : Option Pointer

abbrev pub UserOpt : Type 0
UserOpt = User → User

abbrev pub no_user : User
no_user = record { name = none; home_dir = none; shell = none; gid = none; uid = none }

abbrev pub new_user : List UserOpt → User
new_user opts = apply_opts opts no_user

-- The argument of an option has an address of its own.
abbrev pub with_user_name : Pointer → UserOpt
with_user_name name u = record u { name = some name }

abbrev pub with_user_home_dir : Pointer → UserOpt
with_user_home_dir dir u = record u { home_dir = some dir }

abbrev pub with_user_shell : Pointer → UserOpt
with_user_shell shell u = record u { shell = some shell }

abbrev pub with_user_gid : Pointer → UserOpt
with_user_gid gid u = record u { gid = some gid }

abbrev pub with_user_uid : Pointer → UserOpt
with_user_uid uid u = record u { uid = some uid }

-- `p != q` on pointers.
abbrev pub differs : Pointer → Option Pointer → Bool
differs p none = true
differs p (some q) = not (p.address == q.address)

-- One test of HasSameSetProperties: the other's pointer is nil, or it is the same pointer.
abbrev pub same_if_set : Option Pointer → Option Pointer → Bool
same_if_set none mine = true
same_if_set (some p) mine = not (differs p mine)

abbrev pub same_properties : User → User → Bool
same_properties u other =
    if same_if_set other.name u.name
    then if same_if_set other.home_dir u.home_dir
      then if same_if_set other.shell u.shell
        then if same_if_set other.gid u.gid then same_if_set other.uid u.uid else false
        else false
      else false
    else false

-- HasSameSetProperties, on a receiver and another user, either of which may be nil.
unfoldable pub has_same_set_properties : Option User → Option User → Bool
has_same_set_properties u none = true
has_same_set_properties none (some other) = false
has_same_set_properties (some u) (some other) = same_properties u other
