-- ===== src/Indent.antt =====
-- internal/strings/strings.go: Indent.
pub mod Lines
use terraform_provider_enos.Prelude.{ℕ, List, [], ◌∷◌, ◌++◌, Bytes, ◌==◌, if◌then◌else◌}

abbrev pub onto_first : ℕ → List Bytes → List Bytes
onto_first c [] = (c ∷ []) ∷ []
onto_first c (line ∷ lines) = (c ∷ line) ∷ lines

-- strings.SplitAfter(s, "\n")
unfoldable pub split_after : Bytes → List Bytes
split_after [] = [] ∷ []
split_after (c ∷ s) =
    let rest = split_after s in if c == b'\n' then (c ∷ []) ∷ rest else onto_first c rest

-- The lines without the last one, if that is empty.
abbrev pub drop_empty_last : List Bytes → List Bytes
drop_empty_last [] = []
drop_empty_last ([] ∷ []) = []
drop_empty_last ((c ∷ line) ∷ []) = (c ∷ line) ∷ []
drop_empty_last (line ∷ next ∷ lines) = line ∷ drop_empty_last (next ∷ lines)

-- strings.Join of an empty text and the lines.
abbrev pub join_lines : Bytes → List Bytes → Bytes
join_lines prefix [] = []
join_lines prefix (line ∷ lines) = prefix ++ (line ++ join_lines prefix lines)

-- Indent
unfoldable pub indent : Bytes → Bytes → Bytes
unfolding split_after
indent [] s = s
indent (p ∷ prefix) [] = []
indent (p ∷ prefix) (c ∷ s) = join_lines (p ∷ prefix) (drop_empty_last (split_after (c ∷ s)))
