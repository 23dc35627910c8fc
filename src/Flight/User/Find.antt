-- ===== src/Flight/User/Find.antt =====
-- FindUser of internal/remoteflight/user.go.
use terraform_provider_enos.Prelude.{
  ℕ, ◌+◌, Bool, true, false, ◌&&◌, Option, none, some, List, [], ◌∷◌, ◌++◌, Bytes, codes, length,
  ltb, ◌==◌, if◌then◌else◌, all_of,
}
use terraform_provider_enos.Go.{Err, sentinel, errorf, wrap, new, text, num, end, join}
use terraform_provider_enos.Transport.{Run, Output, new_command}
use terraform_provider_enos.Systemd.Decode.{break_lines, scan_lines, max_scan_token_size}
use terraform_provider_enos.Flight.Errors.{wrap_error_with}
use terraform_provider_enos.Flight.Paths.{split}
use terraform_provider_enos.Flight.User.{Pointer, User, no_user}

-- A pointer to a user, an error, and the target and the first free address after the call.
abbrev pub Found : Type 0 → Type 0
Found W = Option User × Option Err × (W × ℕ)

abbrev pub at : ℕ → Bytes → Option Pointer
at address value = some (record { address = address; value = value })

-- The parts stand one after the other; the user points into them.
abbrev pub user_of_parts : List Bytes → ℕ → Option User × Option Err
user_of_parts (name ∷ _ ∷ uid ∷ gid ∷ _ ∷ home ∷ shell ∷ _) next = (
  some (record {
    name = at next name;
    home_dir = at (next + 5) home;
    shell = at (next + 6) shell;
    gid = at (next + 3) gid;
    uid = at (next + 2) uid;
  }),
  none,
)
user_of_parts parts next = (
  none,
  some (errorf "malformed /etc/passwd entry: expected 7 fields, got %d" (num (length parts) end)),
)

abbrev pub of_parts : {W : Type 0} → W → ℕ → List Bytes → Option User × Option Err → Found W
of_parts w next parts (user, err) = (user, err, (w, next + length parts))

unfoldable pub decode_passwd_line : {W : Type 0} → Bytes → W × ℕ → Found W
unfolding split
decode_passwd_line [] h = (none, some (new "cannot decode blank /etc/passwd line"), h)
decode_passwd_line (c ∷ line) (w, next) =
    let parts = split b':' (c ∷ line) in of_parts w next parts (user_of_parts parts next)

abbrev pub has_prefix : Bytes → Bytes → Bool
has_prefix s [] = true
has_prefix [] (c ∷ prefix) = false
has_prefix (d ∷ s) (c ∷ prefix) = d == c && has_prefix s prefix

abbrev pub first_with : Bytes → List Bytes → Option Bytes
first_with name [] = none
first_with name (line ∷ lines) = if has_prefix line name then some line else first_with name lines

-- Scanner.Err after the last scan: a line that does not fit the scanner's buffer.
unfoldable pub scan_error : Bytes → Option Err
unfolding break_lines
scan_error s =
    if all_of (λ line. ltb (length line) max_scan_token_size) (break_lines s)
    then none
    else some (sentinel "bufio.ErrTooLong")

abbrev pub not_found : Bytes → Option Err → Err
not_found name none = errorf "could not find user %s" (text name end)
not_found name (some e) = wrap "reading /etc/password: %w" end e

abbrev pub getent_error : Bytes → Output → Err → Err
getent_error name out e =
    wrap "finding user %s, getent passwd %s: %w: %s" (text name (text name (text out.stderr end))) e

abbrev pub passwd_error : Bytes → Output → Err → Err
passwd_error name out e =
    wrap "finding user %s, attempting to read contents of /etc/passwd: %w: %s"
      (text name (text out.stderr end)) e

abbrev pub id_error : Bytes → Bytes → Output → Err → Err
id_error name what out e =
    wrap_error_with e ((codes "attempting to get " ++ (name ++ what)) ∷ out.stderr ∷ [])

module _ {W : Type 0} where
  abbrev pub getent_result : Bytes → ℕ → Output × W → Option Err → Found W
  getent_result name next (out, w) (some e) = (none, some (getent_error name out e), (w, next))
  getent_result name next (out, w) none = decode_passwd_line out.stdout (w, next)

  unfoldable pub find_user_get_ent : Run W → Bytes → W × ℕ → Found W
  unfolding decode_passwd_line
  find_user_get_ent tr name (w, next) =
      let ran : Output × W = tr (new_command (codes "getent passwd " ++ name)) w in
      getent_result name next ran ran.0.err

  abbrev pub line_result : Bytes → Bytes → W × ℕ → Option Bytes → Found W
  line_result name passwd h (some line) = decode_passwd_line line h
  line_result name passwd h none = (none, some (not_found name (scan_error passwd)), h)

  abbrev pub passwd_result : Bytes → ℕ → Output × W → Option Err → Found W
  passwd_result name next (out, w) (some e) = (none, some (passwd_error name out e), (w, next))
  passwd_result name next (out, w) none =
      line_result name out.stdout (w, next) (first_with name (scan_lines out.stdout))

  -- The command that is run is the file's name itself.
  unfoldable pub find_user_passwd : Run W → Bytes → W × ℕ → Found W
  unfolding decode_passwd_line scan_lines scan_error
  find_user_passwd tr name (w, next) =
      let ran : Output × W = tr (new_command (codes "/etc/passwd")) w in
      passwd_result name next ran ran.0.err

  abbrev pub gid_result : User → Bytes → ℕ → Output × W → Option Err → Found W
  gid_result user name next (out, w) (some e) =
      (some user, some (id_error name (codes " gid") out e), (w, next))
  gid_result user name next (out, w) none =
      (some (record user { gid = at next out.stdout }), none, (w, next + 1))

  abbrev pub get_gid : Run W → User → Bytes → W × ℕ → Found W
  get_gid tr user name (w, next) =
      let ran : Output × W = tr (new_command (codes "id -g " ++ name)) w in
      gid_result user name next ran ran.0.err

  abbrev pub uid_result : Run W → User → Bytes → ℕ → Output × W → Option Err → Found W
  uid_result tr user name next (out, w) (some e) =
      (some user, some (id_error name (codes " uid") out e), (w, next))
  uid_result tr user name next (out, w) none =
      get_gid tr (record user { uid = at next out.stdout }) name (w, next + 1)

  unfoldable pub find_user_id : Run W → Bytes → W × ℕ → Found W
  find_user_id tr name (w, next) =
      let ran : Output × W = tr (new_command (codes "id -u " ++ name)) w in
      uid_result tr (record no_user { name = at next name }) name (next + 1) ran ran.0.err

  -- The result of a search, or where it has an error the next search, with the errors joined.
  abbrev pub or_try : Found W → (Option Err → W × ℕ → Found W) → Found W
  or_try (user, none, h) next = (user, none, h)
  or_try (user, some e, h) next = next (some e) h

  abbrev pub joined_with : Option Err → Found W → Found W
  joined_with errs (user, none, h) = (user, none, h)
  joined_with errs (user, some e, h) = (none, join errs (some e), h)

  unfoldable pub find_user : Run W → Bytes → W × ℕ → Found W
  unfolding find_user_get_ent find_user_passwd find_user_id
  find_user tr name h = or_try (find_user_get_ent tr name h) (λ errs h1.
      or_try (joined_with errs (find_user_passwd tr name h1))
        (λ errs h2. joined_with errs (find_user_id tr name h2)))
