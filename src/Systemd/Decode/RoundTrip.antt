-- ===== src/Systemd/Decode/RoundTrip.antt =====
-- Decoding the text that UnitProperties.String prints.
use mathlib.Core.List.{append_assoc, append-nil}
use terraform_provider_enos.Prelude.{
  ℕ, ◌≤◌, ◌<◌, ◌≡◌, refl, sym, subst, ◌∙◌, ap, Bool, true, false, none, some, List, [], ◌∷◌, ◌++◌,
  map, Bytes, length, ltb, ◌==◌, insert, lookup, lookup-insert, bytes_eq, bytes_eq_iff, All,
  All-zip, All-each, arith,
}
use terraform_provider_enos.Systemd.Properties.{UnitProperties, to_string}
use terraform_provider_enos.Systemd.Decode.{
  max_scan_token_size, break_lines, drop_cr, scan_lines, split_n, set_parts, decode_line,
  decode_loop, decode_unit_properties_from_show,
}

-- A text without a given byte.
abbrev pub Lacks : ℕ → Bytes → Type 0
Lacks b = All (λ c. (c == b) ≡ false)

abbrev pub last_is_cr : Bytes → Bool
last_is_cr [] = false
last_is_cr (c ∷ []) = c == 13
last_is_cr (c ∷ d ∷ s) = last_is_cr (d ∷ s)

-- The line of one property.
abbrev pub line : Bytes × Bytes → Bytes
line p = p.0 ++ b'=' ∷ p.1

-- A property that is printed on a line which the scanner reads back whole: no `=` in the name, no
-- newline, no carriage return at the end, and short enough.
pub record LineFits (p : Bytes × Bytes) : Type 0 where
  pub name_plain : Lacks b'=' p.0
  pub one_line : Lacks b'\n' (line p)
  pub no_cr : last_is_cr (line p) ≡ false
  pub short : length (line p) < max_scan_token_size

-- No name stands twice, as in any Go map.
abbrev pub Distinct : UnitProperties → Type 0
Distinct [] = Unit
Distinct (p ∷ rest) = (lookup p.0 rest ≡ none) × Distinct rest

break_lines-line :
    (l rest : Bytes) → Lacks b'\n' l → break_lines (l ++ b'\n' ∷ rest) ≡ l ∷ break_lines rest
unfolding break_lines
break_lines-line [] rest h = refl
break_lines-line (c ∷ l) rest h = rw (h.0, break_lines-line l rest h.1)

drop_cr_plain : (l : Bytes) → last_is_cr l ≡ false → drop_cr l ≡ l
unfolding drop_cr
drop_cr_plain [] h = refl
drop_cr_plain (c ∷ []) h = rw h
drop_cr_plain (c ∷ d ∷ l) h = ap (◌∷◌ c) (drop_cr_plain (d ∷ l) h)

split_n-line : (k v : Bytes) → Lacks b'=' k → split_n (k ++ b'=' ∷ v) ≡ some (k, v)
unfolding split_n
split_n-line [] v h = refl
split_n-line (c ∷ k) v h = rw (h.0, split_n-line k v h.1)

to_string-cons :
    (p : Bytes × Bytes) (rest : UnitProperties)
    → to_string (p ∷ rest) ≡ line p ++ b'\n' ∷ to_string rest
unfolding to_string
to_string-cons p rest = sym (append_assoc p.0 (b'=' ∷ p.1) (b'\n' ∷ to_string rest))

scan_lines-line :
    (l rest : Bytes)
    → Lacks b'\n' l
    → last_is_cr l ≡ false
    → length l < max_scan_token_size
    → scan_lines (l ++ b'\n' ∷ rest) ≡ l ∷ scan_lines rest
unfolding scan_lines
scan_lines-line l rest h c s =
    let fits : ltb (length l) max_scan_token_size ≡ true = ground arith in
    rw (break_lines-line l rest h, fits, drop_cr_plain l c)

pub scan_lines-to_string :
    (props : UnitProperties) (tail : Bytes)
    → All LineFits props
    → scan_lines (to_string props ++ tail) ≡ map line props ++ scan_lines tail
unfolding to_string
scan_lines-to_string [] tail h = refl
scan_lines-to_string (p ∷ rest) tail h =
    subst (λ t. scan_lines (t ++ tail) ≡ map line (p ∷ rest) ++ scan_lines tail)
      (sym (to_string-cons p rest))
      (rw (
        append_assoc (line p) (b'\n' ∷ to_string rest) tail,
        scan_lines-line (line p) (to_string rest ++ tail) h.0.one_line h.0.no_cr h.0.short,
        scan_lines-to_string rest tail h.1,
      ))

insert_absent :
    (k v : Bytes) (m : UnitProperties) → lookup k m ≡ none → insert k v m ≡ m ++ (k, v) ∷ []
unfolding insert lookup
insert_absent k v [] h = refl
insert_absent k v ((j, w) ∷ m) h = ground (arith, insert_absent k v m)

decode_line_lem :
    (p : Bytes × Bytes) (m : UnitProperties)
    → LineFits p
    → decode_line (line p) m ≡ insert p.0 p.1 m
unfolding decode_line
decode_line_lem p m h =
    nonempty (line p) ∙ ap (λ o. set_parts o m) (split_n-line p.0 p.1 h.name_plain)
  where
    nonempty : (l : Bytes) → decode_line l m ≡ set_parts (split_n l) m
    nonempty [] = refl
    nonempty (c ∷ t) = refl

lookup-none :
    (k : Bytes) (m : UnitProperties) → lookup k m ≡ none → All (λ q. bytes_eq k q.0 ≡ false) m
unfolding lookup
lookup-none k [] h = tt
lookup-none k ((j, w) ∷ m) h =
    (ground (arith, bytes_eq_iff k j, bytes_eq_iff j k), lookup-none k m (ground arith))

decode_loop-lines :
    (props m : UnitProperties)
    → All LineFits props
    → Distinct props
    → All (λ p. lookup p.0 m ≡ none) props
    → decode_loop (map line props) m ≡ m ++ props
unfolding decode_loop
decode_loop-lines [] m h d f = sym (append-nil m)
decode_loop-lines (p ∷ rest) m h d f =
    ap (decode_loop (map line rest)) (decode_line_lem p m h.0 ∙ insert_absent p.0 p.1 m f.0)
    ∙ (decode_loop-lines rest (m ++ p ∷ []) h.1 d.1 fresh ∙ append_assoc m (p ∷ []) rest)
  where
    fresh : All (λ q. lookup q.0 (m ++ p ∷ []) ≡ none) rest
    fresh = rw (← insert_absent p.0 p.1 m f.0) (
        All-zip {P = λ q. bytes_eq p.0 q.0 ≡ false} {Q = λ q. lookup q.0 m ≡ none} rest
          (λ q ne e. rw (lookup-insert p.0 q.0 p.1 m, ne) e) (lookup-none p.0 rest d.0) f.1)

decode_tail :
    (props : UnitProperties) (tail : Bytes)
    → All LineFits props
    → Distinct props
    → scan_lines tail ≡ []
    → decode_unit_properties_from_show (to_string props ++ tail) ≡ (props, none)
unfolding decode_unit_properties_from_show lookup
decode_tail props tail h d e =
    ap (λ (ls : List Bytes). (decode_loop ls [], none))
      (scan_lines-to_string props tail h ∙ ap (◌++◌ (map line props)) e ∙ append-nil _)
    ∙ ap (λ (m : UnitProperties). (m, none))
        (decode_loop-lines props [] h d (All-each props (λ p. refl)))

-- Decoding what String prints gives the properties back, in order and with no error, where each of
-- them fits a line and no name stands twice. A line of 64 KiB or more after them ends the result
-- there: what follows that line is lost, and still no error is returned.
pub decode_cut :
    (props : UnitProperties) (long rest : Bytes)
    → All LineFits props
    → Distinct props
    → Lacks b'\n' long
    → max_scan_token_size ≤ length long
    → decode_unit_properties_from_show (to_string props ++ (long ++ b'\n' ∷ rest)) ≡ (props, none)
unfolding scan_lines
decode_cut props long rest h d l big =
    let over : ltb (length long) max_scan_token_size ≡ false = ground arith in
    decode_tail props (long ++ b'\n' ∷ rest) h d (rw (break_lines-line long rest l, over))

-- Decoding what String prints gives the properties back, in order and with no error, where each of
-- them fits a line and no name stands twice.
pub decode-to_string :
    (props : UnitProperties)
    → All LineFits props
    → Distinct props
    → decode_unit_properties_from_show (to_string props) ≡ (props, none)
unfolding scan_lines
decode-to_string props h d =
    subst (λ t. decode_unit_properties_from_show t ≡ (props, none)) (append-nil (to_string props))
      (decode_tail props [] h d refl)
