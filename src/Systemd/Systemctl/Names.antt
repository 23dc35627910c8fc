-- ===== src/Systemd/Systemctl/Names.antt =====
-- The unit name that a systemctl command gets.
use terraform_provider_enos.Prelude.{
  ◌≡◌, refl, Bool, true, false, [], ◌∷◌, ◌++◌, Bytes, bytes_eq, bytes_eq_refl, eq_of_bytes_eq, inl,
  inr, all_of, any_of, not, ◌&&◌, ◌==◌, arith, Bool-cases,
}
use terraform_provider_enos.Systemd.Systemctl.{
  SystemctlCommandReq, UnitType, type_not_set, type_to_string, ext, unit_name, with_unit_name,
}

-- No dot and no separator.
abbrev is_plain : Bytes → Bool
is_plain = all_of (λ c. not (c == b'.') && not (c == b'/'))

ext_plain : (s : Bytes) → is_plain s ≡ true → ext s ≡ []
unfolding ext
ext_plain [] h = refl
ext_plain (c ∷ s) h = ground (arith, ext_plain s)

no_slash : (s : Bytes) → is_plain s ≡ true → any_of (λ d. d == b'/') s ≡ false
no_slash [] h = refl
no_slash (c ∷ s) h = ground (arith, no_slash s)

ext_dotted : (n t : Bytes) → is_plain t ≡ true → ext (n ++ b'.' ∷ t) ≡ b'.' ∷ t
unfolding ext
ext_dotted [] t h = rw (ext_plain t h, no_slash t h)
ext_dotted (c ∷ n) t h = rw (ext_dotted n t h)

type_plain : (t : UnitType) → is_plain (type_to_string t) ≡ true
unfolding type_to_string
type_plain type_not_set = refl
type_plain _ = refl

-- The name that a command gets always ends in its unit's type, whatever dots and slashes the
-- requested name has, and giving that name again gets the same one.
pub ext-unit_name :
    (c : SystemctlCommandReq)
    → (ext (unit_name c) ≡ b'.' ∷ type_to_string c.type)
      × (unit_name (with_unit_name (unit_name c) c) ≡ unit_name c)
unfolding unit_name
ext-unit_name c = elim (Bool-cases (bytes_eq (ext c.name) suffix)) [
  | inl same ↦ rw (same, unit_name) (eq_of_bytes_eq (ext c.name) suffix same, rw same)
  | inr other ↦ rw (other, unit_name) (ends, rw (ends, bytes_eq_refl suffix))
]
  where
    suffix : Bytes
    suffix = b'.' ∷ type_to_string c.type

    ends : ext (c.name ++ suffix) ≡ suffix
    ends = ext_dotted c.name (type_to_string c.type) (type_plain c.type)
