-- ===== src/Flight/User/Laws.antt =====
-- What CreateOrUpdateUser of internal/remoteflight/user.go runs on a user that is there.
use terraform_provider_enos.Prelude.{
  ◌≡◌, refl, sym, ap, subst, ◌∙◌, ℕ, ◌<◌, ==_iff, arith, true, false, is_some, Option, none, some,
  List, [], ◌∷◌, ◌++◌, Bytes, codes,
}
use terraform_provider_enos.Transport.{Run}
use terraform_provider_enos.Flight.Attempts.{Walk, on, failed, ◌>>=◌}
use terraform_provider_enos.Flight.User.{
  Pointer, User, differs, same_if_set, has_same_set_properties,
}
use terraform_provider_enos.Flight.User.Find.{find_user}
use terraform_provider_enos.Flight.User.Fresh.{
  Above, IsFresh, FoundFresh, fresh, find_user-FoundFresh,
}
use terraform_provider_enos.Flight.User.Update.{
  usermod_command, run_wrapped, found_after, usermod, update, update_found, update_named,
  create_or_update_user,
}

-- A pointer to an address below `n`, or nil; and a user all of whose pointers are.
abbrev pub Below : ℕ → Option Pointer → Type 0
Below n none = Unit
Below n (some p) = p.address < n

abbrev pub IsOld : ℕ → User → Type 0
IsOld n u = Below n u.name × Below n u.home_dir × Below n u.shell × Below n u.gid × Below n u.uid

abbrev pub usermod_of : Bytes → Option Pointer → Bytes → List Bytes
usermod_of flag none name = []
usermod_of flag (some p) name = usermod_command flag p.value name ∷ []

-- One usermod for each property that is set.
abbrev pub usermods : User → Bytes → List Bytes
usermods want name =
    ((usermod_of (codes "-d") want.home_dir name ++ usermod_of (codes "-s") want.shell name)
      ++ usermod_of (codes "-u") want.uid name)
    ++ usermod_of (codes "-g") want.gid name

module _ {W : Type 0} where
  -- Commands one after the other, up to the first that fails.
  abbrev pub run_all : Run W → List Bytes → W → Walk W
  run_all tr [] w = on w
  run_all tr (cmd ∷ cmds) w = run_wrapped tr cmd w >>= run_all tr cmds

  bind_assoc : (m : Walk W) (f g : W → Walk W) → ((m >>= f) >>= g) ≡ (m >>= (λ w. f w >>= g))
  bind_assoc (on w) f g = refl
  bind_assoc (failed e w) f g = refl

  bind-ext : (m : Walk W) (f g : W → Walk W) → ((w : W) → f w ≡ g w) → (m >>= f) ≡ (m >>= g)
  bind-ext (on w) f g h = h w
  bind-ext (failed e w) f g h = refl

  bind-on : (m : Walk W) → m ≡ (m >>= on)
  bind-on (on w) = refl
  bind-on (failed e w) = refl

  run_all-++ :
      (tr : Run W) (xs ys : List Bytes) (w : W)
      → run_all tr (xs ++ ys) w ≡ (run_all tr xs w >>= run_all tr ys)
  run_all-++ tr [] ys w = refl
  run_all-++ tr (x ∷ xs) ys w =
      bind-ext (run_wrapped tr x w) _ _ (run_all-++ tr xs ys)
      ∙ sym (bind_assoc (run_wrapped tr x w) (run_all tr xs) (run_all tr ys))

differs-new :
    (n : ℕ) (p : Pointer) (o : Option Pointer) → p.address < n → Above n o → differs p o ≡ true
differs-new n p none below above = refl
differs-new n p (some q) below above = ground (arith, ==_iff p.address q.address)

same_if_set-new :
    (n : ℕ) (mine other : Option Pointer)
    → is_some other ≡ true
    → Above n other
    → Below n mine
    → same_if_set other mine ≡ false
same_if_set-new n mine none set above below = absurd (cc set)
same_if_set-new n none (some p) set above below = refl
same_if_set-new n (some q) (some p) set above below = ground (arith, ==_iff p.address q.address)

module _ {W : Type 0} (tr : Run W) where
  usermod-run_all :
      (n : ℕ) (flag : Bytes) (want have : Option Pointer) (name : Bytes) (w : W)
      → Below n want
      → Above n have
      → usermod tr flag want have name w ≡ run_all tr (usermod_of flag want name) w
  usermod-run_all n flag none have name w below above = refl
  usermod-run_all n flag (some p) have name w below above =
      rw (differs-new n p have below above) (bind-on _)

  then_run_all :
      (m : Walk W) (xs ys : List Bytes) (w : W) (f : W → Walk W)
      → m ≡ run_all tr xs w
      → ((w' : W) → f w' ≡ run_all tr ys w')
      → (m >>= f) ≡ run_all tr (xs ++ ys) w
  then_run_all m xs ys w f h k =
      ap (λ m. m >>= f) h
      ∙ (bind-ext (run_all tr xs w) f (run_all tr ys) k ∙ sym (run_all-++ tr xs ys w))

  update-run_all :
      (n : ℕ) (want have : User) (name : Bytes) (w : W)
      → IsOld n want
      → IsFresh n have
      → update tr want have name w ≡ run_all tr (usermods want name) w
  update-run_all n want have name w (_, home, shell, gid, uid) (_, _, home', shell', gid', uid') =
      then_run_all _ _ _ w _
        (then_run_all _ _ _ w _
          (then_run_all _ _ _ w _
            (usermod-run_all n (codes "-d") want.home_dir have.home_dir name w home home')
            (λ w. usermod-run_all n (codes "-s") want.shell have.shell name w shell shell'))
          (λ w. usermod-run_all n (codes "-u") want.uid have.uid name w uid uid'))
        (λ w. usermod-run_all n (codes "-g") want.gid have.gid name w gid gid')

  has_same-new :
      (n : ℕ) (want have : User)
      → IsOld n want
      → IsFresh n have
      → has_same_set_properties (some want) (some have) ≡ false
  unfolding has_same_set_properties
  has_same-new n want have old new =
      rw (same_if_set-new n want.name have.name new.0 new.1 old.0) refl

  FoundFresh-user : (n : ℕ) (u : User) (h : W × ℕ) → FoundFresh n (some u, none, h) → IsFresh n u
  FoundFresh-user n u h (fresh _ f) = f

  update_found-new :
      (n : ℕ) (want have : User) (name : Bytes) (w : W) (next : ℕ)
      → IsOld n want
      → IsFresh n have
      → update_found tr want name (some have, none, (w, next))
        ≡ found_after (run_all tr (usermods want name) w) next (find_user tr name)
  update_found-new n want have name w next old new =
      rw (has_same-new n want have old new) (
        ap (λ m. found_after m next (find_user tr name))
          (update-run_all n want have name w old new))

  -- Where the wanted user's pointers are in use before the call, as a caller's are, and FindUser finds
  -- a user of the name, CreateOrUpdateUser runs usermod for every property that is wanted, whatever
  -- the found user has, until one fails, and then searches for the user again.
  pub create_or_update_user-RunsAll :
      (want : User) (name : Pointer) (w : W) (next : ℕ) {have : User} {w' : W} {next' : ℕ}
      → IsOld next want
      → want.name ≡ some name
      → find_user tr name.value (w, next) ≡ (some have, none, (w', next'))
      → create_or_update_user tr (some want) (w, next)
        ≡ found_after (run_all tr (usermods want name.value) w') next' (find_user tr name.value)
  unfolding create_or_update_user
  create_or_update_user-RunsAll want name w next {have} {w'} {next'} old named found =
      ap (λ o. update_named tr want o (w, next)) named
      ∙ (ap (update_found tr want name.value) found
          ∙ update_found-new next want have name.value w' next' old (
              FoundFresh-user next have (w', next')
                (subst (FoundFresh next) found (find_user-FoundFresh tr name.value (w, next)))))
