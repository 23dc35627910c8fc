-- ===== src/Flight/Install/Checksum.antt =====
-- internal/remoteflight/flightcontrol.go: whether the binary is on the target with the checksum that is wanted.
use terraform_provider_enos.Prelude.{
  ◌==◌, Bool, true, false, Option, none, some, [], ◌∷◌, ◌++◌, Bytes, bytes_eq, codes, if◌then◌else◌,
  String,
}
use terraform_provider_enos.Go.{Err}
use terraform_provider_enos.Transport.{Output, Run, new_command}

abbrev pub space_or : Bool → Bytes → Option Bytes → Option Bytes
space_or is_space s (some rest) = some rest
space_or true s none = some s
space_or false s none = none

-- What follows the last space of the first line.
unfoldable pub last_word : Bytes → Option Bytes
last_word [] = none
last_word (c ∷ s) =
    let rest = last_word s in if c == b'\n' then none else space_or (c == b' ') s rest

abbrev pub or_text : Bytes → Option Bytes → Bytes
or_text s none = s
or_text s (some rest) = rest

-- The replacement of `^.* ` by nothing.
unfoldable pub trim_digest : Bytes → Bytes
unfolding last_word
trim_digest s = or_text s (last_word s)

abbrev pub quoted_path : String → Bytes → Bytes
quoted_path before path = codes before ++ (codes "'" ++ (path ++ codes "'"))

abbrev pub test_command : Bytes → Bytes
test_command path = quoted_path "test -f " path

abbrev pub openssl_command : Bytes → Bytes
openssl_command path = quoted_path "openssl dgst -sha256 " path

abbrev pub sha256sum_command : Bytes → Bytes
sha256sum_command path = quoted_path "sha256sum " path ++ codes " | cut -d ' ' -f1"

abbrev pub is_desired : Bytes → Bytes → Option Err → Bool
is_desired desired sha (some e) = false
is_desired desired [] none = false
is_desired desired (c ∷ sha) none = bytes_eq (c ∷ sha) desired

module _ {W : Type 0} where
  abbrev pub by_sha256sum : Output × W → Bytes × Option Err × W
  by_sha256sum (out, w) = (out.stdout, out.err, w)

  abbrev pub by_openssl : Run W → Bytes → Output → W → Option Err → Bytes × Option Err × W
  by_openssl tr path out w none = (trim_digest out.stdout, none, w)
  by_openssl tr path out w (some e) = by_sha256sum (tr (new_command (sha256sum_command path)) w)

  -- The checksum of the file at the path.
  unfoldable pub checksum_at : Run W → Bytes → W → Bytes × Option Err × W
  unfolding trim_digest
  checksum_at tr path w =
      let ran : Output × W = tr (new_command (openssl_command path)) w in
      by_openssl tr path ran.0 ran.1 ran.0.err

  abbrev pub compared : Bytes → Bytes × Option Err × W → Bool × W
  compared desired (sha, e, w) = (is_desired desired sha e, w)

  abbrev pub if_there : Run W → Bytes → Bytes → Option Err → W → Bool × W
  if_there tr path desired (some e) w = (false, w)
  if_there tr path desired none w = compared desired (checksum_at tr path w)

  -- Whether the file is there with the checksum.
  unfoldable pub is_current : Run W → Bytes → Bytes → W → Bool × W
  unfolding checksum_at bytes_eq
  is_current tr path desired w =
      let ran : Output × W = tr (new_command (test_command path)) w in
      if_there tr path desired ran.0.err ran.1
