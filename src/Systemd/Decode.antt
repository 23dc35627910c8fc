-- ===== src/Systemd/Decode.antt =====
-- decodeUnitPropertiesFromShow of internal/remoteflight/systemd/client.go, with what it uses of
-- bufio.Scanner: lines end in a newline, lose one carriage return, and must fit a buffer of 64 KiB.
-- Scan stops at a line that does not fit, and nothing asks for its error then.
pub mod RoundTrip
use terraform_provider_enos.Prelude.{
  ℕ, Option, none, some, List, [], ◌∷◌, map, Bytes, length, ltb, ◌==◌, insert, if◌then◌else◌,
}
use terraform_provider_enos.Go.{Err}
use terraform_provider_enos.Systemd.Properties.{UnitProperties, new_unit_properties}

-- bufio.MaxScanTokenSize: a line and its newline fit below it.
abbrev pub max_scan_token_size : ℕ
max_scan_token_size = 65536

abbrev pub cons_head : ℕ → List Bytes → List Bytes
cons_head c [] = (c ∷ []) ∷ []
cons_head c (line ∷ lines) = (c ∷ line) ∷ lines

-- The text between newlines; what follows the last one counts if it is not empty.
unfoldable pub break_lines : Bytes → List Bytes
break_lines [] = []
break_lines (c ∷ s) = let rest = break_lines s in if c == b'\n' then [] ∷ rest else cons_head c rest

unfoldable pub until_too_long : List Bytes → List Bytes
until_too_long [] = []
until_too_long (line ∷ lines) =
    if ltb (length line) max_scan_token_size then line ∷ until_too_long lines else []

unfoldable pub drop_cr : Bytes → Bytes
drop_cr [] = []
drop_cr (c ∷ []) = if c == 13 then [] else c ∷ []
drop_cr (c ∷ d ∷ s) = c ∷ drop_cr (d ∷ s)

-- The texts of the scanner's successful scans.
unfoldable pub scan_lines : Bytes → List Bytes
unfolding break_lines until_too_long drop_cr
scan_lines s = map drop_cr (until_too_long (break_lines s))

abbrev pub put_first : ℕ → Option (Bytes × Bytes) → Option (Bytes × Bytes)
put_first c none = none
put_first c (some (k, v)) = some (c ∷ k, v)

-- strings.SplitN(t, "=", 2), where it has two parts.
unfoldable pub split_n : Bytes → Option (Bytes × Bytes)
split_n [] = none
split_n (c ∷ s) = let rest = split_n s in if c == b'=' then some ([], s) else put_first c rest

abbrev pub set_parts : Option (Bytes × Bytes) → UnitProperties → UnitProperties
set_parts none props = props
set_parts (some (k, v)) props = insert k v props

unfoldable pub decode_line : Bytes → UnitProperties → UnitProperties
unfolding split_n
decode_line [] props = props
decode_line (c ∷ t) props = set_parts (split_n (c ∷ t)) props

unfoldable pub decode_loop : List Bytes → UnitProperties → UnitProperties
unfolding decode_line
decode_loop [] props = props
decode_loop (t ∷ ts) props = decode_loop ts (decode_line t props)

-- The error of the source stays nil: a scan that succeeds has no error over a strings.Reader.
unfoldable pub decode_unit_properties_from_show : Bytes → UnitProperties × Option Err
unfolding scan_lines decode_loop
decode_unit_properties_from_show show = (decode_loop (scan_lines show) new_unit_properties, none)
