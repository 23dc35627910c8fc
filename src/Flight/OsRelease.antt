-- ===== src/Flight/OsRelease.antt =====
-- findInOsRelease, formatPlatform and formatArch of internal/remoteflight/target.go.
pub mod Laws
use terraform_provider_enos.Prelude.{
  ℕ, ◌+◌, ◌&&◌, Option, none, some, List, [], ◌∷◌, Bytes, bytes_eq, codes, leb, ◌==◌, if◌then◌else◌,
  map,
}
use terraform_provider_enos.Go.{Err, errorf, text, end, join}
use terraform_provider_enos.Systemd.Decode.{scan_lines}
use terraform_provider_enos.Flight.Paths.{split}
use terraform_provider_enos.Flight.User.Find.{scan_error}

abbrev pub drop_quotes : Bytes → Bytes
drop_quotes [] = []
drop_quotes (c ∷ s) = let rest = drop_quotes s in if c == b'"' then rest else c ∷ s

-- A text without the quotes at its end.
abbrev pub quote_last : ℕ → Bytes → Bytes
quote_last c [] = if c == b'"' then [] else c ∷ []
quote_last c (d ∷ s) = c ∷ d ∷ s

abbrev pub drop_last_quotes : Bytes → Bytes
drop_last_quotes [] = []
drop_last_quotes (c ∷ s) = quote_last c (drop_last_quotes s)

-- strings.Trim(s, `"`)
unfoldable pub trim_quotes : Bytes → Bytes
trim_quotes s = drop_last_quotes (drop_quotes s)

-- The value of a line that begins with the needle and `=`, up to the next `=`.
abbrev pub value_of : Bytes → List Bytes → Option Bytes
value_of needle [] = none
value_of needle (_ ∷ []) = none
value_of needle (key ∷ value ∷ _) = if bytes_eq key needle then some (trim_quotes value) else none

abbrev pub or_next : Option Bytes → Option Bytes → Option Bytes
or_next none rest = rest
or_next (some value) rest = some value

unfoldable pub search_lines : Bytes → List Bytes → Option Bytes
unfolding split bytes_eq trim_quotes
search_lines needle [] = none
search_lines needle (line ∷ lines) =
    or_next (value_of needle (split b'=' line)) (search_lines needle lines)

abbrev pub missing : Bytes → Bytes → Err
missing needle haystack =
    errorf "cannot find %s in /etc/os-release, /etc/os-release: %s"
      (text needle (text haystack end))

abbrev pub searched : Bytes → Bytes → Option Bytes → Bytes × Option Err
searched haystack needle (some value) = (value, none)
searched haystack needle none = ([], join (scan_error haystack) (some (missing needle haystack)))

unfoldable pub find_in_os_release : Bytes → Bytes → Bytes × Option Err
unfolding search_lines scan_lines
find_in_os_release [] needle =
    ([], some (errorf "cannot find %s in blank /etc/os-release" (text needle end)))
find_in_os_release (c ∷ haystack) needle =
    searched (c ∷ haystack) needle (search_lines needle (scan_lines (c ∷ haystack)))

-- strings.ToLower, of ASCII.
abbrev lower : ℕ → ℕ
lower c = if leb b'A' c && leb c b'Z' then c + 32 else c

unfoldable pub to_lower : Bytes → Bytes
to_lower s = map lower s

abbrev pub format_platform : Bytes → Bytes
format_platform platform = to_lower platform

unfoldable pub format_arch : Bytes → Bytes
unfolding bytes_eq
format_arch arch =
    if bytes_eq arch (codes "x86_64")
    then codes "amd64"
    else if bytes_eq arch (codes "aarch64")
    then codes "arm64"
    else arch
