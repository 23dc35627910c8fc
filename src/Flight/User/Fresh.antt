-- ===== src/Flight/User/Fresh.antt =====
-- A user that FindUser of internal/remoteflight/user.go finds points to texts of its own.
use terraform_provider_enos.Prelude.{
  ◌≡◌, refl, ℕ, ◌+◌, ◌≤◌, arith, true, is_some, Option, none, some, List, [], ◌∷◌, Bytes, codes,
  ◌++◌,
}
use terraform_provider_enos.Go.{Err}
use terraform_provider_enos.Transport.{Run, Output, new_command}
use terraform_provider_enos.Systemd.Decode.{scan_lines}
use terraform_provider_enos.Flight.User.{Pointer, User, no_user}
use terraform_provider_enos.Flight.User.Find.{
  Found, at, user_of_parts, of_parts, decode_passwd_line, first_with, getent_result,
  find_user_get_ent, line_result, passwd_result, find_user_passwd, gid_result, uid_result,
  find_user_id, or_try, joined_with, find_user,
}

-- A pointer to an address from `n` on, or nil.
abbrev pub Above : ℕ → Option Pointer → Type 0
Above n none = Unit
Above n (some p) = n ≤ p.address

-- All pointers of a user are from `n` on, and its name is set.
abbrev pub IsFresh : ℕ → User → Type 0
IsFresh n u =
    (is_some u.name ≡ true)
    × Above n u.name
    × Above n u.home_dir
    × Above n u.shell
    × Above n u.gid
    × Above n u.uid

abbrev FreshIf : ℕ → Option User → Option Err → Type 0
FreshIf n none err = Unit
FreshIf n (some u) none = IsFresh n u
FreshIf n (some u) (some e) = Unit

module _ {W : Type 0} where
  -- No address is given out twice, and a user that is found without an error is fresh.
  pub data FoundFresh (n : ℕ) (found : Found W) : Type 0 where
    fresh : n ≤ found.2.1 → FreshIf n found.0 found.1 → FoundFresh n found

  of_parts-FoundFresh :
      (w : W) (next : ℕ) (parts : List Bytes)
      → FoundFresh next (of_parts w next parts (user_of_parts parts next))
  of_parts-FoundFresh w next [] = fresh (omega arith) tt
  of_parts-FoundFresh w next (_ ∷ []) = fresh (omega arith) tt
  of_parts-FoundFresh w next (_ ∷ _ ∷ []) = fresh (omega arith) tt
  of_parts-FoundFresh w next (_ ∷ _ ∷ _ ∷ []) = fresh (omega arith) tt
  of_parts-FoundFresh w next (_ ∷ _ ∷ _ ∷ _ ∷ []) = fresh (omega arith) tt
  of_parts-FoundFresh w next (_ ∷ _ ∷ _ ∷ _ ∷ _ ∷ []) = fresh (omega arith) tt
  of_parts-FoundFresh w next (_ ∷ _ ∷ _ ∷ _ ∷ _ ∷ _ ∷ []) = fresh (omega arith) tt
  of_parts-FoundFresh w next (_ ∷ _ ∷ _ ∷ _ ∷ _ ∷ _ ∷ _ ∷ parts) =
      fresh (omega arith) (refl, omega arith, omega arith, omega arith, omega arith, omega arith)

  decode_passwd_line-FoundFresh :
      (line : Bytes) (h : W × ℕ) → FoundFresh h.1 (decode_passwd_line line h)
  unfolding decode_passwd_line
  decode_passwd_line-FoundFresh [] h = fresh (omega arith) tt
  decode_passwd_line-FoundFresh (c ∷ line) (w, next) = of_parts-FoundFresh w next _

  find_user_get_ent-FoundFresh :
      (tr : Run W) (name : Bytes) (h : W × ℕ) → FoundFresh h.1 (find_user_get_ent tr name h)
  unfolding find_user_get_ent
  find_user_get_ent-FoundFresh tr name (w, next) =
      go (tr (new_command (codes "getent passwd " ++ name)) w)
        (tr (new_command (codes "getent passwd " ++ name)) w).0.err
    where
      go : (ran : Output × W) (err : Option Err) → FoundFresh next (getent_result name next ran err)
      go (out, w1) (some e) = fresh (omega arith) tt
      go (out, w1) none = decode_passwd_line-FoundFresh out.stdout (w1, next)

  line_result-FoundFresh :
      (name passwd : Bytes) (h : W × ℕ) (line : Option Bytes)
      → FoundFresh h.1 (line_result name passwd h line)
  line_result-FoundFresh name passwd h none = fresh (omega arith) tt
  line_result-FoundFresh name passwd h (some line) = decode_passwd_line-FoundFresh line h

  find_user_passwd-FoundFresh :
      (tr : Run W) (name : Bytes) (h : W × ℕ) → FoundFresh h.1 (find_user_passwd tr name h)
  unfolding find_user_passwd
  find_user_passwd-FoundFresh tr name (w, next) =
      go (tr (new_command (codes "/etc/passwd")) w) (tr (new_command (codes "/etc/passwd")) w).0.err
    where
      go : (ran : Output × W) (err : Option Err) → FoundFresh next (passwd_result name next ran err)
      go (out, w1) (some e) = fresh (omega arith) tt
      go (out, w1) none =
          line_result-FoundFresh name out.stdout (w1, next)
            (first_with name (scan_lines out.stdout))

  gid_result-FoundFresh :
      (user : User) (name : Bytes) (n next : ℕ) (ran : Output × W) (err : Option Err)
      → n ≤ next
      → IsFresh n user
      → FoundFresh n (gid_result user name next ran err)
  gid_result-FoundFresh user name n next (out, w) (some e) le h = fresh (omega arith) tt
  gid_result-FoundFresh user name n next (out, w) none le (a, b, c, d, e, f) =
      fresh (omega arith) (a, b, c, d, le, f)

  uid_result-FoundFresh :
      (tr : Run W) (user : User) (name : Bytes) (n next : ℕ) (ran : Output × W) (err : Option Err)
      → n ≤ next
      → IsFresh n user
      → FoundFresh n (uid_result tr user name next ran err)
  uid_result-FoundFresh tr user name n next (out, w) (some e) le h = fresh (omega arith) tt
  uid_result-FoundFresh tr user name n next (out, w) none le (a, b, c, d, e, f) =
      gid_result-FoundFresh (record user { uid = at next out.stdout }) name n (next + 1)
        (tr (new_command (codes "id -g " ++ name)) w)
        (tr (new_command (codes "id -g " ++ name)) w).0.err (omega arith) (a, b, c, d, e, le)

  find_user_id-FoundFresh :
      (tr : Run W) (name : Bytes) (h : W × ℕ) → FoundFresh h.1 (find_user_id tr name h)
  unfolding find_user_id
  find_user_id-FoundFresh tr name (w, next) =
      uid_result-FoundFresh tr (record no_user { name = at next name }) name next (next + 1)
        (tr (new_command (codes "id -u " ++ name)) w)
        (tr (new_command (codes "id -u " ++ name)) w).0.err (omega arith)
        (refl, omega arith, tt, tt, tt, tt)

  or_try-FoundFresh :
      (n : ℕ) (found : Found W) (next : Option Err → W × ℕ → Found W)
      → FoundFresh n found
      → ((errs : Option Err) (h : W × ℕ) → n ≤ h.1 → FoundFresh n (next errs h))
      → FoundFresh n (or_try found next)
  or_try-FoundFresh n (user, none, h) next f k = f
  or_try-FoundFresh n (user, some e, h) next (fresh le _) k = k (some e) h le

  joined_with-FoundFresh :
      (n m : ℕ) (errs : Option Err) (found : Found W)
      → n ≤ m
      → FoundFresh m found
      → FoundFresh n (joined_with errs found)
  joined_with-FoundFresh n m errs (user, some e, h) le (fresh le' _) = fresh (omega arith) tt
  joined_with-FoundFresh n m errs (none, none, h) le (fresh le' _) = fresh (omega arith) tt
  joined_with-FoundFresh n m errs (some u, none, h) le (fresh le' (a, b, c, d, e, f)) =
      fresh (omega arith) (a, up u.name b, up u.home_dir c, up u.shell d, up u.gid e, up u.uid f)
    where
      up : (p : Option Pointer) → Above m p → Above n p
      up none x = tt
      up (some p) x = omega arith

  -- FindUser gives out no address that is in use, and a user that it finds without an error has a
  -- name and points to new addresses alone.
  pub find_user-FoundFresh :
      (tr : Run W) (name : Bytes) (h : W × ℕ) → FoundFresh h.1 (find_user tr name h)
  unfolding find_user
  find_user-FoundFresh tr name h =
      or_try-FoundFresh h.1 _ _ (find_user_get_ent-FoundFresh tr name h) (λ errs h1 le1.
        or_try-FoundFresh h.1 _ _
          (joined_with-FoundFresh h.1 h1.1 errs _ le1 (find_user_passwd-FoundFresh tr name h1))
          (λ errs' h2 le2.
            joined_with-FoundFresh h.1 h2.1 errs' _ le2 (find_user_id-FoundFresh tr name h2)))
