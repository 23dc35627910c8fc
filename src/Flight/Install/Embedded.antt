-- ===== src/Flight/Install/Embedded.antt =====
-- internal/flightcontrol/flightcontrol.go: which targets the embedded enos-flight-control binaries are for.
-- The directory of the binaries, which the build embeds, is an argument.
pub mod Laws
use terraform_provider_enos.Prelude.{
  ℕ, ◌==◌, ◌&&◌, ◌||◌, leb, Bool, true, false, Option, none, some, List, [], ◌∷◌, ◌++◌, Bytes,
  bytes_eq, codes, lookup, insert, if◌then◌else◌,
}
use terraform_provider_enos.Go.{Err}

-- What embed.FS gives: the entries of the directory, each with whether it is a directory itself, and the
-- content of a file.
pub record Binaries : Type 0 where
  pub read_dir : List (Bytes × Bool) × Option Err
  pub read_file : Bytes → Bytes × Option Err

abbrev pub is_word_byte : ℕ → Bool
is_word_byte c =
    leb b'0' c && leb c b'9' || leb b'A' c && leb c b'Z' || leb b'a' c && leb c b'z' || c == b'_'

-- `\w*` up to the end.
unfoldable pub all_words : Bytes → Bool
all_words [] = true
all_words (c ∷ s) = is_word_byte c && all_words s

abbrev add_to_first : Bytes → Bytes × Bytes → Bytes × Bytes
add_to_first c (a, b) = (c ++ a, b)

abbrev or_split : Bool → Bytes → Bytes → Option (Bytes × Bytes) → Option (Bytes × Bytes)
or_split here c s (some p) = some (add_to_first c p)
or_split true c s none = some ([], s)
or_split false c s none = none

-- `(\w*)_(\w*)$` on words, of which the first group takes the most: the split at the last `_`.
unfoldable pub split_last : Bytes → Option (Bytes × Bytes)
split_last [] = none
split_last (c ∷ s) = or_split (c == b'_') (c ∷ []) s (split_last s)

-- What follows a prefix.
unfoldable pub strip_prefix : Bytes → Bytes → Option Bytes
strip_prefix [] s = some s
strip_prefix (p ∷ prefix) [] = none
strip_prefix (p ∷ prefix) (c ∷ s) =
    let rest = strip_prefix prefix s in if p == c then rest else none

abbrev pub binary_prefix : Bytes
binary_prefix = codes "enos-flight-control_"

abbrev groups_of : Option Bytes → Option (Bytes × Bytes)
groups_of none = none
groups_of (some rest) = if all_words rest then split_last rest else none

abbrev or_later : Option (Bytes × Bytes) → Option (Bytes × Bytes) → Option (Bytes × Bytes)
or_later (some p) later = some p
or_later none later = later

-- binaryRegex: its platform and its arch, at the first place where it matches.
unfoldable pub match_binary : Bytes → Option (Bytes × Bytes)
unfolding all_words split_last strip_prefix
match_binary [] = none
match_binary (c ∷ s) = or_later (groups_of (strip_prefix binary_prefix (c ∷ s))) (match_binary s)

abbrev archs_or_none : Option (List Bytes) → List Bytes
archs_or_none none = []
archs_or_none (some archs) = archs

abbrev Targets : Type 0
Targets = List (Bytes × List Bytes)

abbrev add_target : Option (Bytes × Bytes) → Targets → Targets
add_target none targets = targets
add_target (some (platform, arch)) targets =
    insert platform (archs_or_none (lookup platform targets) ++ arch ∷ []) targets

abbrev entry_target : Bytes × Bool → Option (Bytes × Bytes)
entry_target (name, true) = none
entry_target (name, false) = match_binary name

unfoldable pub add_entries : List (Bytes × Bool) → Targets → Targets
unfolding match_binary
add_entries [] targets = targets
add_entries (entry ∷ entries) targets =
    add_entries entries (add_target (entry_target entry) targets)

abbrev targets_of : List (Bytes × Bool) × Option Err → Targets × Option Err
targets_of (entries, some e) = ([], some e)
targets_of (entries, none) = (add_entries entries [], none)

-- SupportedTargets
unfoldable pub supported_targets : Binaries → Targets × Option Err
unfolding add_entries
supported_targets binaries = targets_of binaries.read_dir

-- slices.Contains
unfoldable pub contains : List Bytes → Bytes → Bool
unfolding bytes_eq
contains [] s = false
contains (t ∷ ts) s = bytes_eq t s || contains ts s

abbrev is_supported : Targets × Option Err → Bytes → Bytes → Bool × Option Err
is_supported (targets, some e) platform arch = (false, some e)
is_supported (targets, none) platform arch =
    (contains (archs_or_none (lookup platform targets)) arch, none)

-- SupportedTarget
unfoldable pub supported_target : Binaries → Bytes → Bytes → Bool × Option Err
unfolding supported_targets contains
supported_target binaries platform arch = is_supported (supported_targets binaries) platform arch

abbrev pub target_path : Bytes → Bytes → Bytes
target_path platform arch =
    codes "binaries/enos-flight-control_" ++ (platform ++ (codes "_" ++ arch))

-- ReadTargetFile
abbrev pub read_target_file : Binaries → Bytes → Bytes → Bytes × Option Err
read_target_file binaries platform arch = binaries.read_file (target_path platform arch)
