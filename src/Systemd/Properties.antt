-- ===== src/Systemd/Properties.antt =====
-- internal/remoteflight/systemd/properties.go. A map is an association list.
pub mod Laws
use terraform_provider_enos.Prelude.{
  Bool, true, false, Option, none, some, List, [], ◌∷◌, ◌++◌, map, Bytes, codes, bytes_eq, lookup,
  insert, if◌then◌else◌,
}
use terraform_provider_enos.Go.{Err, errorf, text, end, join}

abbrev pub UnitProperties : Type 0
UnitProperties = List (Bytes × Bytes)

abbrev pub enabled_and_running_properties : UnitProperties
enabled_and_running_properties =
    (codes "LoadState", codes "loaded")
    ∷ (codes "ActiveState", codes "active")
    ∷ (codes "SubState", codes "running")
    ∷ (codes "UnitFileState", codes "enabled")
    ∷ []

abbrev pub new_unit_properties : UnitProperties
new_unit_properties = []

-- `sval, ok := s[prop]; ok && val == sval`
abbrev pub is_value : Bytes → Option Bytes → Bool
is_value val none = false
is_value val (some sval) = bytes_eq val sval

-- HasProperties
unfoldable pub has_properties : UnitProperties → UnitProperties → Bool
has_properties s [] = true
has_properties s ((prop, val) ∷ rest) =
    if is_value val (lookup prop s) then has_properties s rest else false

-- The value that a missing key reads as, and its error.
abbrev pub value_or_empty : Option Bytes → Bytes
value_or_empty none = []
value_or_empty (some v) = v

abbrev pub missing_error : Bytes → Option Bytes → Option Err
missing_error name none = some (errorf "no property found: %s" (text name end))
missing_error name (some _) = none

-- Find: the loop over the names, with its two variables.
unfoldable pub find_loop :
    UnitProperties → List Bytes → UnitProperties → Option Err → UnitProperties × Option Err
find_loop s [] props err = (props, err)
find_loop s (name ∷ names) props err =
    find_loop s names (insert name (value_or_empty (lookup name s)) props)
      (join err (missing_error name (lookup name s)))

unfoldable pub find : UnitProperties → List Bytes → UnitProperties × Option Err
unfolding find_loop
find s names = find_loop s names new_unit_properties none

-- FindProperties
unfoldable pub find_properties : UnitProperties → UnitProperties → UnitProperties × Option Err
unfolding find
find_properties s wanted = find s (map (λ p. p.0) wanted)

-- UnitProperties.String
unfoldable pub to_string : UnitProperties → Bytes
to_string [] = []
to_string ((name, value) ∷ rest) = name ++ (codes "=" ++ (value ++ (codes "\n" ++ to_string rest)))
