-- ===== src/Flight/Install/Embedded/Laws.antt =====
-- Which targets internal/flightcontrol/flightcontrol.go supports.
use terraform_provider_enos.Prelude.{
  ℕ, ◌≡◌, refl, sym, ap, ◌∙◌, ◌↔◌, ◌&&◌, ◌||◌, Bool, true, false, Bool-cases, inl, inr, Option,
  none, some, List, [], ◌∷◌, ◌++◌, Bytes, bytes_eq, bytes_eq_iff, codes, lookup, lookup-insert,
  arith, any_of, Some, any_of-Some, Some-any_of, Some-mono,
}
use terraform_provider_enos.Systemd.Decode.RoundTrip.{Lacks}
use terraform_provider_enos.Flight.Install.Embedded.{
  target_path, Binaries, all_words, split_last, strip_prefix, binary_prefix, match_binary,
  archs_or_none, add_target, entry_target, add_entries, contains, supported_targets,
  supported_target,
}

strip_prefix-append : (p s : Bytes) → strip_prefix p (p ++ s) ≡ some s
unfolding strip_prefix
strip_prefix-append [] s = refl
strip_prefix-append (c ∷ p) s = ground (arith, strip_prefix-append p s)

split_last-Lacks : (a : Bytes) → Lacks b'_' a → split_last a ≡ none
unfolding split_last
split_last-Lacks [] h = refl
split_last-Lacks (c ∷ a) h = rw (h.0, split_last-Lacks a h.1) refl

split_last-join : (p a : Bytes) → Lacks b'_' a → split_last (p ++ b'_' ∷ a) ≡ some (p, a)
unfolding split_last
split_last-join [] a h = rw (split_last-Lacks a h) refl
split_last-join (c ∷ p) a h = rw (split_last-join p a h) refl

all_words-join :
    (p a : Bytes) → all_words p ≡ true → all_words a ≡ true → all_words (p ++ b'_' ∷ a) ≡ true
unfolding all_words
all_words-join [] a h k = rw k refl
all_words-join (c ∷ p) a h k = ground (arith, all_words-join p a)

match_binary-at :
    (c : ℕ) (s rest : Bytes) (q : Bytes × Bytes)
    → strip_prefix binary_prefix (c ∷ s) ≡ some rest
    → all_words rest ≡ true
    → split_last rest ≡ some q
    → match_binary (c ∷ s) ≡ some q
unfolding match_binary
match_binary-at c s rest q h k l = rw (h, k, l) refl

-- The name that ReadTargetFile reads is matched as its platform and its arch.
match_binary-join :
    (p a : Bytes)
    → all_words p ≡ true
    → all_words a ≡ true
    → Lacks b'_' a
    → match_binary (binary_prefix ++ (p ++ b'_' ∷ a)) ≡ some (p, a)
match_binary-join p a h k l =
    match_binary-at _ _ (p ++ b'_' ∷ a) (p, a) (strip_prefix-append binary_prefix (p ++ b'_' ∷ a))
      (all_words-join p a h k) (split_last-join p a l)

contains-last :
    (xs : List Bytes) (b a : Bytes) → contains (xs ++ b ∷ []) a ≡ (contains xs a || bytes_eq b a)
unfolding contains
contains-last [] b a = ground arith
contains-last (x ∷ xs) b a = ground (arith, contains-last xs b a)

module _ (p a : Bytes) where
  -- The architectures of the platform have the one.
  abbrev has : List (Bytes × List Bytes) → Bool
  has targets = contains (archs_or_none (lookup p targets)) a

  abbrev is_pair : Option (Bytes × Bytes) → Bool
  is_pair none = false
  is_pair (some (q, b)) = bytes_eq q p && bytes_eq b a

  has-add_target :
      (o : Option (Bytes × Bytes)) (targets : List (Bytes × List Bytes))
      → has (add_target o targets) ≡ (has targets || is_pair o)
  has-add_target none targets = ground arith
  has-add_target (some (q, b)) targets = elim (Bool-cases (bytes_eq q p)) [
    | inl same ↦
        let e : q ≡ p = (bytes_eq_iff q p).0 same in
        rw (lookup-insert q p (archs_or_none (lookup q targets) ++ b ∷ []) targets, same)
          (rw e (contains-last (archs_or_none (lookup p targets)) b a))
    | inr other ↦
        rw (lookup-insert q p (archs_or_none (lookup q targets) ++ b ∷ []) targets, other)
          (ground arith)
  ]

  has-add_entries :
      (entries : List (Bytes × Bool)) (targets : List (Bytes × List Bytes))
      → has (add_entries entries targets)
        ≡ (has targets || any_of (λ e. is_pair (entry_target e)) entries)
  unfolding add_entries
  has-add_entries [] targets = ground arith
  has-add_entries (e ∷ entries) targets = ground (
    arith,
    has-add_entries entries (add_target (entry_target e) targets),
    has-add_target (entry_target e) targets,
  )

  -- A file, and not a directory, whose name is matched as the platform and the arch.
  abbrev pub IsBinary : Bytes × Bool → Type 0
  IsBinary e = (e.1 ≡ false) × (match_binary e.0 ≡ some (p, a))

  is_pair_iff : (o : Option (Bytes × Bytes)) → (is_pair o ≡ true) ↔ (o ≡ some (p, a))
  is_pair_iff none = (λ h. absurd (cc h), λ h. absurd (cc h))
  is_pair_iff (some (q, b)) = (
    λ h.
        let e : q ≡ p = (bytes_eq_iff q p).0 (ground arith) in
        let f : b ≡ a = (bytes_eq_iff b a).0 (ground arith) in rw (e, f) refl,
    λ h.
        let e : q ≡ p = cc h in
        let f : b ≡ a = cc h in ground (arith, (bytes_eq_iff q p).1 e, (bytes_eq_iff b a).1 f),
  )

  entry_iff : (e : Bytes × Bool) → (is_pair (entry_target e) ≡ true) ↔ IsBinary e
  entry_iff (name, true) = (λ h. absurd (cc h), λ (h, k). absurd (cc h))
  entry_iff (name, false) =
      let (to, from) = is_pair_iff (match_binary name) in (λ h. (refl, to h), λ (h, k). from k)

  -- Where the embedded directory is read, a target is supported exactly if a file in it, and not a
  -- directory, has a name that is matched as its platform and its arch.
  pub supported_target_iff :
      (binaries : Binaries) (entries : List (Bytes × Bool))
      → binaries.read_dir ≡ (entries, none)
      → (supported_target binaries p a ≡ (true, none)) ↔ Some IsBinary entries
  unfolding supported_target supported_targets lookup
  supported_target_iff binaries entries read = (
    λ h.
        Some-mono entries (λ e. (entry_iff e).0)
          (any_of-Some (λ e. is_pair (entry_target e)) entries
            (sym (has-add_entries entries []) ∙ ap (λ x. x.0) (rw read at h))),
    λ h. rw read (
        ap (λ (b : Bool). (b, none))
          (has-add_entries entries []
            ∙ Some-any_of (λ e. is_pair (entry_target e)) entries
                (Some-mono entries (λ e. (entry_iff e).1) h))),
  )

  -- A file of the directory that has the path which ReadTargetFile reads for the target.
  abbrev pub IsTargetFile : Bytes × Bool → Type 0
  IsTargetFile e = (e.1 ≡ false) × (codes "binaries/" ++ e.0 ≡ target_path p a)

  IsTargetFile-IsBinary :
      all_words p ≡ true
      → all_words a ≡ true
      → Lacks b'_' a
      → (e : Bytes × Bool) → IsTargetFile e
      → IsBinary e
  IsTargetFile-IsBinary words arch_words lacks (name, b) (file, same) =
      let e : name ≡ binary_prefix ++ (p ++ b'_' ∷ a) = cc same in
      (file, rw e (match_binary-join p a words arch_words lacks))

  -- Where the embedded directory is read and has the file that ReadTargetFile reads for a target, the
  -- target is supported, provided that its platform and its arch are of letters, digits and `_`, and
  -- the arch has no `_`.
  pub target_file-supported :
      (binaries : Binaries) (entries : List (Bytes × Bool))
      → binaries.read_dir ≡ (entries, none)
      → all_words p ≡ true
      → all_words a ≡ true
      → Lacks b'_' a
      → Some IsTargetFile entries
      → supported_target binaries p a ≡ (true, none)
  target_file-supported binaries entries read words arch_words lacks there =
      (supported_target_iff binaries entries read).1
        (Some-mono entries (IsTargetFile-IsBinary words arch_words lacks) there)
