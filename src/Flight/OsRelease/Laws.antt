-- ===== src/Flight/OsRelease/Laws.antt =====
-- What findInOsRelease of internal/remoteflight/target.go finds in a file of quoted values.
use mathlib.Core.List.{append-nil}
use terraform_provider_enos.Prelude.{
  ◌≡◌, refl, ap, subst, ◌∙◌, Bool, true, false, Option, none, some, List, [], ◌∷◌, ◌++◌, Bytes,
  bytes_eq, map, lookup, All, if◌then◌else◌, arith, ℕ,
}
use terraform_provider_enos.Systemd.Properties.{to_string}
use terraform_provider_enos.Systemd.Decode.{scan_lines}
use terraform_provider_enos.Systemd.Decode.RoundTrip.{Lacks, line, LineFits, scan_lines-to_string}
use terraform_provider_enos.Flight.Paths.{split}
use terraform_provider_enos.Flight.OsRelease.{
  drop_last_quotes, quote_last, trim_quotes, value_of, or_next, search_lines, searched,
  find_in_os_release,
}

-- A value between quotes.
abbrev pub quoted : Bytes × Bytes → Bytes × Bytes
quoted p = (p.0, b'"' ∷ (p.1 ++ b'"' ∷ []))

-- A key and a value that the file keeps: on a line of their own, with no `=` or quote in the value.
pub record Plain (p : Bytes × Bytes) : Type 0 where
  pub fits : LineFits (quoted p)
  pub no_equals : Lacks b'=' p.1
  pub no_quotes : Lacks b'"' p.1

pub split-one : (sep : ℕ) (v : Bytes) → Lacks sep v → split sep v ≡ v ∷ []
unfolding split
split-one sep [] h = refl
split-one sep (c ∷ v) h = rw (h.0, split-one sep v h.1) refl

pub split-first : (sep : ℕ) (k v : Bytes) → Lacks sep k → split sep (k ++ sep ∷ v) ≡ k ∷ split sep v
unfolding split
split-first sep [] v h = ground arith
split-first sep (c ∷ k) v h = rw (h.0, split-first sep k v h.1) refl

Lacks-quoted : (v : Bytes) → Lacks b'=' v → Lacks b'=' (v ++ b'"' ∷ [])
Lacks-quoted [] h = (refl, tt)
Lacks-quoted (c ∷ v) h = (h.0, Lacks-quoted v h.1)

drop_last_quotes-quoted : (v : Bytes) → Lacks b'"' v → drop_last_quotes (v ++ b'"' ∷ []) ≡ v
drop_last_quotes-quoted [] h = refl
drop_last_quotes-quoted (c ∷ []) h = rw h.0 refl
drop_last_quotes-quoted (c ∷ d ∷ v) h = ap (quote_last c) (drop_last_quotes-quoted (d ∷ v) h.1)

trim_quotes-quoted : (v : Bytes) → Lacks b'"' v → trim_quotes (b'"' ∷ (v ++ b'"' ∷ [])) ≡ v
unfolding trim_quotes
trim_quotes-quoted [] h = refl
trim_quotes-quoted (c ∷ v) h = rw h.0 (drop_last_quotes-quoted (c ∷ v) h)

value_of-line :
    (needle : Bytes) (p : Bytes × Bytes)
    → Plain p
    → value_of needle (split b'=' (line (quoted p)))
      ≡ (if bytes_eq p.0 needle then some p.1 else none)
value_of-line needle p h =
    ap (value_of needle) (
      split-first b'=' p.0 (b'"' ∷ (p.1 ++ b'"' ∷ [])) h.fits.name_plain
      ∙ ap (◌∷◌ p.0)
          (split-one b'=' (b'"' ∷ (p.1 ++ b'"' ∷ [])) (refl, Lacks-quoted p.1 h.no_equals)))
    ∙ ap (λ (v : Bytes). if bytes_eq p.0 needle then some v else none)
        (trim_quotes-quoted p.1 h.no_quotes)

or_next-if :
    (b : Bool) (v : Bytes) (o : Option Bytes)
    → or_next (if b then some v else none) o ≡ (if b then some v else o)
or_next-if true v o = refl
or_next-if false v o = refl

search_lines-lines :
    (needle : Bytes) (pairs : List (Bytes × Bytes))
    → All Plain pairs
    → search_lines needle (map line (map quoted pairs)) ≡ lookup needle pairs
unfolding search_lines lookup
search_lines-lines needle [] h = refl
search_lines-lines needle (p ∷ pairs) h =
    ap (λ o. or_next o (search_lines needle (map line (map quoted pairs))))
      (value_of-line needle p h.0)
    ∙ (or_next-if (bytes_eq p.0 needle) p.1 _
        ∙ ap (λ (o : Option Bytes). if bytes_eq p.0 needle then some p.1 else o)
            (search_lines-lines needle pairs h.1))

find-searched :
    (haystack needle : Bytes) {v : Bytes}
    → search_lines needle (scan_lines haystack) ≡ some v
    → find_in_os_release haystack needle ≡ (v, none)
unfolding find_in_os_release search_lines scan_lines
find-searched [] needle h = absurd (cc h)
find-searched (c ∷ haystack) needle h = ap (searched (c ∷ haystack) needle) h

All-fits : (pairs : List (Bytes × Bytes)) → All Plain pairs → All LineFits (map quoted pairs)
All-fits [] h = tt
All-fits (p ∷ pairs) h = (h.0.fits, All-fits pairs h.1)

-- In a file that has a line for each of some pairs, with the value in quotes, the value of a key is
-- found with no error and without the quotes, the first one where a key stands twice, provided that
-- each pair fits a line and no value has a quote or `=` in it.
pub find_in_os_release-to_string :
    (pairs : List (Bytes × Bytes)) (needle : Bytes) {v : Bytes}
    → All Plain pairs
    → lookup needle pairs ≡ some v
    → find_in_os_release (to_string (map quoted pairs)) needle ≡ (v, none)
unfolding scan_lines
find_in_os_release-to_string pairs needle h found =
    find-searched (to_string (map quoted pairs)) needle (
      ap (search_lines needle) (
        subst (λ t. scan_lines t ≡ map line (map quoted pairs) ++ [])
          (append-nil (to_string (map quoted pairs)))
          (scan_lines-to_string (map quoted pairs) [] (All-fits pairs h))
        ∙ append-nil _)
      ∙ (search_lines-lines needle pairs h ∙ found))
