-- ===== src/Flight/Paths.antt =====
-- What internal/remoteflight uses of path/filepath on Unix: Clean, Join of two elements, Base and Dir.
use terraform_provider_enos.Prelude.{
  ℕ, Bool, true, false, List, [], ◌∷◌, ◌++◌, Bytes, bytes_eq, codes, ◌==◌, if◌then◌else◌, ◌||◌,
}

abbrev cons_head : ℕ → List Bytes → List Bytes
cons_head c [] = (c ∷ []) ∷ []
cons_head c (part ∷ parts) = (c ∷ part) ∷ parts

-- strings.Split at one byte: one part more than the byte stands in the text.
unfoldable pub split : ℕ → Bytes → List Bytes
split sep [] = [] ∷ []
split sep (c ∷ s) = let rest = split sep s in if c == sep then [] ∷ rest else cons_head c rest

abbrev pub join_with : Bytes → List Bytes → Bytes
join_with sep [] = []
join_with sep (part ∷ []) = part
join_with sep (part ∷ next ∷ parts) = part ++ (sep ++ join_with sep (next ∷ parts))

-- A `..` goes up where there is an element to leave; at the root it stays; else it is kept.
abbrev go_up : Bool → List Bytes → List Bytes
go_up true [] = []
go_up false [] = codes ".." ∷ []
go_up rooted (top ∷ stack) = if bytes_eq top (codes "..") then codes ".." ∷ top ∷ stack else stack

-- One element on the stack of those before it, the last one first.
abbrev resolve : Bool → List Bytes → Bytes → List Bytes
resolve rooted stack part =
    if bytes_eq part [] || bytes_eq part (codes ".")
    then stack
    else if bytes_eq part (codes "..")
    then go_up rooted stack
    else part ∷ stack

abbrev resolve_all : Bool → List Bytes → List Bytes → List Bytes
resolve_all rooted stack [] = stack
resolve_all rooted stack (part ∷ parts) = resolve_all rooted (resolve rooted stack part) parts

abbrev reversed : List Bytes → List Bytes → List Bytes
reversed [] done = done
reversed (part ∷ parts) done = reversed parts (part ∷ done)

abbrev is_rooted : Bytes → Bool
is_rooted [] = false
is_rooted (c ∷ s) = c == b'/'

abbrev dot_if_empty : Bytes → Bytes
dot_if_empty [] = codes "."
dot_if_empty (c ∷ s) = c ∷ s

abbrev with_root : Bool → Bytes → Bytes
with_root true s = b'/' ∷ s
with_root false s = dot_if_empty s

unfoldable pub clean : Bytes → Bytes
unfolding split bytes_eq
clean path =
    with_root (is_rooted path)
      (join_with (codes "/") (reversed (resolve_all (is_rooted path) [] (split b'/' path)) []))

abbrev join_from : Bytes → Bytes → Bytes
join_from [] [] = []
join_from [] (c ∷ s) = clean (c ∷ s)
join_from (c ∷ s) b = clean ((c ∷ s) ++ b'/' ∷ b)

unfoldable pub join_paths : Bytes → Bytes → Bytes
unfolding clean
join_paths a b = join_from a b

abbrev last_named : Bytes → List Bytes → Bytes
last_named found [] = found
last_named found ([] ∷ parts) = last_named found parts
last_named found ((c ∷ s) ∷ parts) = last_named (c ∷ s) parts

abbrev base_of : Bytes → Bytes → Bytes
base_of [] last = codes "."
base_of (c ∷ s) [] = codes "/"
base_of (c ∷ s) (d ∷ t) = d ∷ t

-- filepath.Base: the last element that is not empty; `.` of an empty path, `/` of slashes alone.
unfoldable pub base : Bytes → Bytes
unfolding split
base path = base_of path (last_named [] (split b'/' path))

abbrev all_but_last : List Bytes → List Bytes
all_but_last [] = []
all_but_last (part ∷ []) = [] ∷ []
all_but_last (part ∷ next ∷ parts) = part ∷ all_but_last (next ∷ parts)

-- filepath.Dir: what stands before the last element, its slash included, made clean.
unfoldable pub dir : Bytes → Bytes
unfolding clean split
dir path = clean (join_with (codes "/") (all_but_last (split b'/' path)))
