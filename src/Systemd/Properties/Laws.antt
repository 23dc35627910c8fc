-- ===== src/Systemd/Properties/Laws.antt =====
-- What HasProperties, Find and FindProperties of systemd/properties.go decide.
use terraform_provider_enos.Prelude.{
  ◌≡◌, refl, ◌↔◌, Bool, true, Option, none, some, List, [], ◌∷◌, map, Bytes, if◌then◌else◌, is_some,
  any_of, All-zip, All-mono, sym, ◌∙◌, bytes_eq, bytes_eq_iff, bytes_eq_refl, lookup, insert,
  lookup-insert, All, arith,
}
use terraform_provider_enos.Go.{join-none, Err, join}
use terraform_provider_enos.Systemd.Properties.{
  UnitProperties, has_properties, find_loop, find_properties, is_value, value_or_empty,
  missing_error,
}

-- Every pair of the second set stands in the first.
abbrev pub Shares : UnitProperties → UnitProperties → Type 0
Shares s wanted = All (λ p. lookup p.0 s ≡ some p.1) wanted

is_value_iff : (val : Bytes) (o : Option Bytes) → (is_value val o ≡ true) ↔ (o ≡ some val)
is_value_iff val none = ground arith
is_value_iff val (some sval) = ground (arith, bytes_eq_iff val sval)

-- One set has the properties of another exactly when each of these stands in it with its value.
pub has_properties_iff :
    (s wanted : UnitProperties) → (has_properties s wanted ≡ true) ↔ Shares s wanted
unfolding has_properties
has_properties_iff s [] = (λ _. tt, λ _. refl)
has_properties_iff s ((prop, val) ∷ rest) =
    ground (arith, is_value_iff val (lookup prop s), has_properties_iff s rest)

abbrev names_of : UnitProperties → List Bytes
names_of = map (λ p. p.0)

abbrev is_among : Bytes → List Bytes → Bool
is_among j = any_of (λ n. bytes_eq n j)

-- Find reads every name from the first set, and a missing one as an empty value.
lookup-find_loop :
    (s : UnitProperties) (j : Bytes) (names : List Bytes) (props : UnitProperties)
    (err : Option Err)
    → lookup j (find_loop s names props err).0
      ≡ (if is_among j names then some (value_or_empty (lookup j s)) else lookup j props)
unfolding find_loop
lookup-find_loop s j [] props err = refl
lookup-find_loop s j (name ∷ names) props err =
    let v = value_or_empty (lookup name s) in
    rw
      (
        lookup-find_loop s j names (insert name v props)
            (join err (missing_error name (lookup name s))),
        lookup-insert name j v props,
      )
      (ground (arith, bytes_eq_iff name j))

abbrev Present : UnitProperties → List Bytes → Type 0
Present s = All (λ n. is_some (lookup n s) ≡ true)

missing_iff : (n : Bytes) (o : Option Bytes) → (missing_error n o ≡ none) ↔ (is_some o ≡ true)
missing_iff n none = ground arith
missing_iff n (some v) = ground arith

find_loop-Present :
    (s : UnitProperties) (names : List Bytes) (props : UnitProperties) (err : Option Err)
    → ((find_loop s names props err).1 ≡ none) ↔ ((err ≡ none) × Present s names)
unfolding find_loop
find_loop-Present s [] props err = (λ e. (e, tt), λ h. h.0)
find_loop-Present s (name ∷ names) props err =
    let o = lookup name s in
    let ih =
      find_loop-Present s names (insert name (value_or_empty o) props)
        (join err (missing_error name o)) in
    let j = join-none err (missing_error name o) in
    let m = missing_iff name o in
    (
      λ e. ((j.0 (ih.0 e).0).0, (m.0 (j.0 (ih.0 e).0).1, (ih.0 e).1)),
      λ h. ih.1 (j.1 (h.0, m.1 h.1.0), h.1.1),
    )

-- Every pair's name is among the names.
among_names : (wanted : UnitProperties) → All (λ p. is_among p.0 (names_of wanted) ≡ true) wanted
among_names [] = tt
among_names ((k, v) ∷ rest) =
    (rw (bytes_eq_refl k), All-mono rest (λ p h. ground arith) (among_names rest))

Present-names :
    (s wanted : UnitProperties)
    → Present s (names_of wanted) ↔ All (λ p. is_some (lookup p.0 s) ≡ true) wanted
Present-names s [] = (λ h. h, λ h. h)
Present-names s (p ∷ rest) =
    let ih = Present-names s rest in (λ h. (h.0, ih.0 h.1), λ h. (h.0, ih.1 h.1))

value-of_present : (o : Option Bytes) → is_some o ≡ true → some (value_or_empty o) ≡ o
value-of_present none h = ground arith
value-of_present (some v) h = refl

lookup-found :
    (s wanted : UnitProperties) (p : Bytes × Bytes)
    → is_among p.0 (names_of wanted) ≡ true
    → is_some (lookup p.0 s) ≡ true
    → lookup p.0 (find_properties s wanted).0 ≡ lookup p.0 s
unfolding find_properties
lookup-found s wanted p a h =
    lookup-find_loop s p.0 (names_of wanted) [] none ∙ rw a (value-of_present (lookup p.0 s) h)

-- Finding the names of a set and then comparing values succeeds exactly when every pair of that set
-- stands in the properties.
pub find_properties_iff :
    (s wanted : UnitProperties)
    → (((find_properties s wanted).1 ≡ none)
        × (has_properties (find_properties s wanted).0 wanted ≡ true))
      ↔ Shares s wanted
unfolding find_properties
find_properties_iff s wanted = (
  λ h.
      let present =
        (Present-names s wanted).0 ((find_loop-Present s (names_of wanted) [] none).0 h.0).1 in
      All-zip wanted (λ p m e. sym m ∙ e) (same present)
        ((has_properties_iff (find_properties s wanted).0 wanted).0 h.1),
  λ h.
      let present : All (λ p. is_some (lookup p.0 s) ≡ true) wanted =
        All-mono wanted (λ p e. rw e) h in
      (
        (find_loop-Present s (names_of wanted) [] none).1
            (refl, (Present-names s wanted).1 present),
        (has_properties_iff (find_properties s wanted).0 wanted).1
            (All-zip wanted (λ p m e. m ∙ e) (same present) h),
      ),
)
  where
    same :
        All (λ p. is_some (lookup p.0 s) ≡ true) wanted
        → All (λ p. lookup p.0 (find_properties s wanted).0 ≡ lookup p.0 s) wanted
    same = All-zip wanted (lookup-found s wanted) (among_names wanted)
