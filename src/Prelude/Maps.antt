-- ===== src/Prelude/Maps.antt =====
-- Maps from strings as association lists: no key twice, and what each key holds.
use mathlib.Core.Path.{◌≡◌, refl, sym}
use mathlib.Core.Logic.{inl, inr}
use mathlib.Core.List.{List, [], ◌∷◌}
use mathlib.Core.Option.{none}
use native.Mathlib.Omega.{arith}
use terraform_provider_enos.Prelude.Tests.{Bool-cases}
use terraform_provider_enos.Prelude.Lists.{All}
use terraform_provider_enos.Prelude.Strings.{
  Bytes, bytes_eq, bytes_eq_iff, lookup, insert, lookup-insert,
}

module _ {V : Type 0} where
  -- No key stands twice.
  abbrev pub IsDistinct : List (Bytes × V) → Type 0
  IsDistinct [] = Unit
  IsDistinct ((k, _) ∷ m) = (lookup k m ≡ none) × IsDistinct m

  pub insert-IsDistinct :
      (k : Bytes) (v : V) (m : List (Bytes × V)) → IsDistinct m → IsDistinct (insert k v m)
  unfolding insert lookup
  insert-IsDistinct k v [] h = (refl, tt)
  insert-IsDistinct k v ((j, w) ∷ m) h = elim (Bool-cases (bytes_eq j k)) [
    | inl e ↦ rw e (rw (sym ((bytes_eq_iff j k).0 e)) h.0, h.1)
    | inr e ↦ rw e (
      ground (arith, lookup-insert k j v m, bytes_eq_iff k j, bytes_eq_iff j k),
      insert-IsDistinct k v m h.1,
    )
  ]

  pub insert-All :
      (P : Bytes × V → Type 0) (k : Bytes) (v : V) (m : List (Bytes × V))
      → P (k, v)
      → All P m
      → All P (insert k v m)
  unfolding insert
  insert-All P k v [] p h = (p, tt)
  insert-All P k v ((j, w) ∷ m) p h = elim (Bool-cases (bytes_eq j k)) [
    | inl e ↦ rw e (p, h.1)
    | inr e ↦ rw e (h.0, insert-All P k v m p h.1)
  ]
