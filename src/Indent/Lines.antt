-- ===== src/Indent/Lines.antt =====
-- Indent against a description that reads the text byte by byte.
use terraform_provider_enos.Prelude.{
  ℕ, ◌≡◌, refl, sym, ap, ◌∙◌, Bool, true, false, List, [], ◌∷◌, ◌++◌, Bytes, ◌==◌, Bool-cases, inl,
  inr,
}
use terraform_provider_enos.Indent.{onto_first, split_after, drop_empty_last, join_lines, indent}

-- The prefix before every byte that begins a line; the flag says whether the next one does.
abbrev pub indented : Bytes → Bool → Bytes → Bytes
indented prefix begins [] = []
indented prefix true (c ∷ s) = prefix ++ c ∷ indented prefix (c == b'\n') s
indented prefix false (c ∷ s) = c ∷ indented prefix (c == b'\n') s

abbrev after_first : Bytes → List Bytes → Bytes
after_first prefix [] = []
after_first prefix (line ∷ lines) = line ++ join_lines prefix (drop_empty_last lines)

drop_empty_last-cons :
    (c : ℕ) (line : Bytes) (lines : List Bytes)
    → drop_empty_last ((c ∷ line) ∷ lines) ≡ (c ∷ line) ∷ drop_empty_last lines
drop_empty_last-cons c line [] = refl
drop_empty_last-cons c line (next ∷ lines) = refl

join_lines-onto_first :
    (prefix : Bytes) (c : ℕ) (lines : List Bytes)
    → join_lines prefix (drop_empty_last (onto_first c lines))
      ≡ prefix ++ c ∷ after_first prefix lines
join_lines-onto_first prefix c [] = refl
join_lines-onto_first prefix c (line ∷ lines) = rw (drop_empty_last-cons c line lines) refl

after_first-onto_first :
    (prefix : Bytes) (c : ℕ) (lines : List Bytes)
    → after_first prefix (onto_first c lines) ≡ c ∷ after_first prefix lines
after_first-onto_first prefix c [] = refl
after_first-onto_first prefix c (line ∷ lines) = refl

split_after-indented :
    (prefix s : Bytes)
    → (join_lines prefix (drop_empty_last (split_after s)) ≡ indented prefix true s)
      × (after_first prefix (split_after s) ≡ indented prefix false s)
unfolding split_after
split_after-indented prefix [] = (refl, refl)
split_after-indented prefix (c ∷ s) =
    let (begins, goes_on) = split_after-indented prefix s in
    elim (Bool-cases (c == b'\n')) [
      | inl e ↦ rw e (
        rw (drop_empty_last-cons c [] (split_after s)) (ap (λ t. prefix ++ c ∷ t) begins),
        ap (λ t. c ∷ t) begins,
      )
      | inr e ↦ rw e (
        join_lines-onto_first prefix c (split_after s) ∙ ap (λ t. prefix ++ c ∷ t) goes_on,
        after_first-onto_first prefix c (split_after s) ∙ ap (λ t. c ∷ t) goes_on,
      )
    ]

no_prefix : (begins : Bool) (s : Bytes) → indented [] begins s ≡ s
no_prefix begins [] = refl
no_prefix true (c ∷ s) = ap (λ t. c ∷ t) (no_prefix (c == b'\n') s)
no_prefix false (c ∷ s) = ap (λ t. c ∷ t) (no_prefix (c == b'\n') s)

-- Indenting puts the prefix before every byte that begins a line, and changes nothing else: a newline
-- at the end begins no line.
pub indent-indented : (prefix s : Bytes) → indent prefix s ≡ indented prefix true s
unfolding indent
indent-indented [] s = sym (no_prefix true s)
indent-indented (p ∷ prefix) [] = refl
indent-indented (p ∷ prefix) (c ∷ s) = (split_after-indented (p ∷ prefix) (c ∷ s)).0
