-- ===== src/Flight/User/Decoded.antt =====
-- The user that FindUser of internal/remoteflight/user.go reads from an entry of the passwd database.
use mathlib.Core.Option
use terraform_provider_enos.Prelude.{
  ◌≡◌, ◌≢◌, refl, ap, ◌∙◌, ◌⊎◌, inl, inr, ℕ, none, some, List, [], ◌∷◌, ◌++◌, Bytes, codes,
}
use terraform_provider_enos.Go.{Err}
use terraform_provider_enos.Transport.{Run, new_command}
use terraform_provider_enos.Systemd.Decode.{scan_lines}
use terraform_provider_enos.Systemd.Decode.RoundTrip.{Lacks}
use terraform_provider_enos.Flight.Paths.{split}
use terraform_provider_enos.Flight.OsRelease.Laws.{split-one, split-first}
use terraform_provider_enos.Flight.User.{User}
use terraform_provider_enos.Flight.User.Find.{
  Found, user_of_parts, of_parts, decode_passwd_line, first_with, find_user_get_ent,
  find_user_passwd, find_user,
}

-- An entry of the passwd database, and its line.
pub record Entry : Type 0 where
  pub name : Bytes
  pub password : Bytes
  pub uid : Bytes
  pub gid : Bytes
  pub gecos : Bytes
  pub home : Bytes
  pub shell : Bytes

abbrev pub line_of : Entry → Bytes
line_of e =
    e.name
    ++ b':'
      ∷ (e.password
          ++ b':'
            ∷ (e.uid ++ b':' ∷ (e.gid ++ b':' ∷ (e.gecos ++ b':' ∷ (e.home ++ b':' ∷ e.shell)))))

abbrev pub parts_of : Entry → List Bytes
parts_of e = e.name ∷ e.password ∷ e.uid ∷ e.gid ∷ e.gecos ∷ e.home ∷ e.shell ∷ []

-- No field has a colon.
abbrev pub IsPlain : Entry → Type 0
IsPlain e =
    Lacks b':' e.name
    × Lacks b':' e.password
    × Lacks b':' e.uid
    × Lacks b':' e.gid
    × Lacks b':' e.gecos
    × Lacks b':' e.home
    × Lacks b':' e.shell

-- The texts that a user points to are those of the entry.
abbrev pub IsOf : Entry → User → Type 0
IsOf e u =
    (Option.map (λ p. p.value) u.name ≡ some e.name)
    × (Option.map (λ p. p.value) u.home_dir ≡ some e.home)
    × (Option.map (λ p. p.value) u.shell ≡ some e.shell)
    × (Option.map (λ p. p.value) u.gid ≡ some e.gid)
    × (Option.map (λ p. p.value) u.uid ≡ some e.uid)

split-line_of : (e : Entry) → IsPlain e → split b':' (line_of e) ≡ parts_of e
split-line_of e (a, b, c, d, f, g, h) =
    split-first b':' e.name _ a
    ∙ ap (◌∷◌ e.name) (
        split-first b':' e.password _ b
        ∙ ap (◌∷◌ e.password) (
            split-first b':' e.uid _ c
            ∙ ap (◌∷◌ e.uid) (
                split-first b':' e.gid _ d
                ∙ ap (◌∷◌ e.gid) (
                    split-first b':' e.gecos _ f
                    ∙ ap (◌∷◌ e.gecos) (
                        split-first b':' e.home _ g
                        ∙ ap (◌∷◌ e.home) (split-one b':' e.shell h))))))

append-cons : (s t : Bytes) (c : ℕ) → s ++ c ∷ t ≢ []
append-cons [] t c h = cc h
append-cons (d ∷ s) t c h = cc h

module _ {W : Type 0} where
  decode_passwd_line-split :
      (line : Bytes) (w : W) (next : ℕ)
      → line ≢ []
      → decode_passwd_line line (w, next)
        ≡ of_parts w next (split b':' line) (user_of_parts (split b':' line) next)
  unfolding decode_passwd_line
  decode_passwd_line-split [] w next h = absurd (h refl)
  decode_passwd_line-split (c ∷ line) w next h = refl

  -- A user that is found with no error, and whose texts are those of the entry.
  abbrev pub FoundOf : Entry → W → Found W → Type 0
  FoundOf e w found = (u : User) × (n : ℕ) × (found ≡ (some u, none, (w, n))) × IsOf e u

  decode_passwd_line-FoundOf :
      (e : Entry) (w : W) (next : ℕ)
      → IsPlain e
      → FoundOf e w (decode_passwd_line (line_of e) (w, next))
  decode_passwd_line-FoundOf e w next plain = (
    _,
    _,
    decode_passwd_line-split (line_of e) w next (append-cons e.name _ b':')
        ∙ ap (λ parts. of_parts w next parts (user_of_parts parts next)) (split-line_of e plain),
    (refl, refl, refl, refl, refl),
  )

  -- getent prints the line of the entry; or it fails, and the file has the line as its first one that
  -- begins with the name.
  abbrev pub HasEntry : Run W → Bytes → Entry → W → W → Type 0
  HasEntry tr name e w w' =
      (((tr (new_command (codes "getent passwd " ++ name)) w).0.err ≡ none)
        × ((tr (new_command (codes "getent passwd " ++ name)) w).0.stdout ≡ line_of e)
        × ((tr (new_command (codes "getent passwd " ++ name)) w).1 ≡ w'))
      ⊎ ((x : Err) × (w1 : W) × ((tr (new_command (codes "getent passwd " ++ name)) w).0.err
            ≡ some x)
          × ((tr (new_command (codes "getent passwd " ++ name)) w).1 ≡ w1)
          × ((tr (new_command (codes "/etc/passwd")) w1).0.err ≡ none)
          × (first_with name (scan_lines (tr (new_command (codes "/etc/passwd")) w1).0.stdout)
              ≡ some (line_of e))
          × ((tr (new_command (codes "/etc/passwd")) w1).1 ≡ w'))

  -- Where getent prints the line of an entry none of whose fields has a colon, or fails and the run of
  -- /etc/passwd prints lines of which the first that begins with the name is such a line, FindUser
  -- finds a user with no error, whose name, home directory, shell, group and user are the entry's.
  pub find_user-FoundOf :
      (tr : Run W) (name : Bytes) (e : Entry) (w : W) (next : ℕ) {w' : W}
      → IsPlain e
      → HasEntry tr name e w w'
      → FoundOf e w' (find_user tr name (w, next))
  unfolding find_user find_user_get_ent find_user_passwd
  find_user-FoundOf tr name e w next plain (inl (ok, line, w1)) =
      let (u, n, found, is_of) =
        decode_passwd_line-FoundOf e (tr (new_command (codes "getent passwd " ++ name)) w).1 next
          plain in
      (u, n, rw (ok, line, found, w1) refl, is_of)
  find_user-FoundOf tr name e w next plain (inr (x, w1, bad, at, ok, line, w2)) =
      let (u, n, found, is_of) =
        decode_passwd_line-FoundOf e (tr (new_command (codes "/etc/passwd")) w1).1 next plain in
      (u, n, rw (bad, at, ok, line, found, w2) refl, is_of)
