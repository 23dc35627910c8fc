-- ===== src/Flight/File/Laws.antt =====
-- What CopyFile of internal/remoteflight/file.go has done where it ends with no error, and when it does.
use terraform_provider_enos.Prelude.{
  ◌≡◌, ◌≢◌, refl, sym, subst, ◌⊎◌, inl, inr, ap, ℕ, suc, Option, none, some, List, [], ◌∷◌, ◌++◌,
  Bytes,
}
use terraform_provider_enos.Go.{Err, returned}
use terraform_provider_enos.Transport.{Run}
use terraform_provider_enos.Retry.{Env, active}
use terraform_provider_enos.Retry.Outcome.{SaysWhy}
use terraform_provider_enos.Flight.Paths.{dir}
use terraform_provider_enos.Flight.Attempts.{
  Transport, Walk, on, failed, ◌>>=◌, run_or_sudo, with_sudo,
}
use terraform_provider_enos.Flight.Attempts.Rules.{
  Follows, no_more, also, run_or_sudo-EitherWay, EitherWay-run_or_sudo, retried-FromSuccess,
  retried-first,
}
use terraform_provider_enos.Flight.File.{
  CopyFileRequest, chmod_file, chown_file, make_dir, move, set_mode, set_owner, copied, result_of,
  file_walk, file_operations, tmp_path, copy_to, copy_file,
}

module _ {W : Type 0} where
  Walk-cases : (m : Walk W) → ((w : W) × (m ≡ on w)) ⊎ ((e : Err) × (w : W) × (m ≡ failed e w))
  Walk-cases (on w) = inl (w, refl)
  Walk-cases (failed e w) = inr (e, w, refl)

  -- A walk that goes on went on at its first step.
  >>=-on :
      (m : Walk W) (k : W → Walk W) {w' : W}
      → (m >>= k) ≡ on w'
      → (w : W) × (m ≡ on w) × (k w ≡ on w')
  >>=-on (on w) k h = (w, refl, h)
  >>=-on (failed e w) k h = absurd (cc h)

  copied-on : (p : Option Err × W) {w : W} → copied p ≡ on w → p ≡ (none, w)
  copied-on (none, w) h = cc h
  copied-on (some e, w) h = absurd (cc h)

  result_of-none :
      (m : Walk W) {w : W} {a : Option Bytes} → result_of m ≡ returned (a, none, w) → m ≡ on w
  result_of-none (on w) h = cc h
  result_of-none (failed e w) h = absurd (cc h)

-- A command for a setting, none where it is empty.
abbrev pub setting : (Bytes → Bytes) → Bytes → List Bytes
setting cmd [] = []
setting cmd (c ∷ s) = cmd (c ∷ s) ∷ []

-- What is run after the copy: the mode, the owner, the parent directory and the move.
abbrev pub commands : {W C : Type 0} → CopyFileRequest W C → Bytes → List Bytes
commands file path =
    setting (λ mode. chmod_file mode path) file.chmod
    ++ (setting (λ owner. chown_file owner path) file.chown
        ++ make_dir (dir file.destination) ∷ move path file.destination ∷ [])

module _ {W C : Type 0} where
  -- The content is at the temporary path, and then the commands have run, each of them either way.
  abbrev pub Placed : Transport W C → CopyFileRequest W C → Bytes → W → W → Type 0
  Placed tr file path w w' =
      (w1 : W) × (tr.copy file.content path w ≡ (none, w1))
      × Follows tr.run (commands file path) w1 w'

module _ {W : Type 0} (tr : Run W) where
  set_mode-Follows :
      (mode path : Bytes) {cmds : List Bytes} {w w1 w' : W}
      → set_mode tr mode path w ≡ on w1
      → Follows tr cmds w1 w'
      → Follows tr (setting (λ mode. chmod_file mode path) mode ++ cmds) w w'
  set_mode-Follows [] path {cmds} {w} {w1} {w'} h rest =
      subst (λ x. Follows tr cmds x w') (sym (cc h)) rest
  set_mode-Follows (c ∷ mode) path h rest = also (run_or_sudo-EitherWay tr _ _ _ _ h) rest

  set_owner-Follows :
      (owner path : Bytes) {cmds : List Bytes} {w w1 w' : W}
      → set_owner tr owner path w ≡ on w1
      → Follows tr cmds w1 w'
      → Follows tr (setting (λ owner. chown_file owner path) owner ++ cmds) w w'
  set_owner-Follows [] path {cmds} {w} {w1} {w'} h rest =
      subst (λ x. Follows tr cmds x w') (sym (cc h)) rest
  set_owner-Follows (c ∷ owner) path h rest = also (run_or_sudo-EitherWay tr _ _ _ _ h) rest

module _ {W C : Type 0} where
  file_walk-Placed :
      (tr : Transport W C) (file : CopyFileRequest W C) (path : Bytes) (w : W) {w' : W}
      → file_walk tr file path w ≡ on w'
      → Placed tr file path w w'
  unfolding file_walk
  file_walk-Placed tr file path w h =
      let (w4, h4, last) = >>=-on _ _ h in
      let (w3, h3, parent) = >>=-on _ _ h4 in
      let (w2, h2, owner) = >>=-on _ _ h3 in
      let (w1, h1, mode) = >>=-on _ _ h2 in
      (
        w1,
        copied-on _ h1,
        set_mode-Follows tr.run file.chmod path mode (
            set_owner-Follows tr.run file.chown path owner (
              also (run_or_sudo-EitherWay tr.run _ _ _ _ parent)
                (also (run_or_sudo-EitherWay tr.run _ _ _ _ last) (no_more _)))),
      )

  copy_to-Placed :
      (fuel : ℕ) (env : Env W) (tr : Transport W C) (id : Bytes) (file : CopyFileRequest W C)
      (destination : Bytes) (w : W) {w' : W}
      → SaysWhy env
      → copy_to fuel env tr id file destination w ≡ some (returned (none, w'))
      → (w0 : W) × Placed tr file (tmp_path file id) w0 w'
  unfolding file_operations
  copy_to-Placed fuel env tr id file [] w why h = absurd (cc h)
  copy_to-Placed fuel env tr id file (c ∷ destination) w why h =
      let (w0, a, e) = retried-FromSuccess fuel env file.retry_opts _ w why h in
      (w0, file_walk-Placed tr file (tmp_path file id) w0 (result_of-none _ e))

  -- Where CopyFile ends with no error and a context that is done says why, the last that happened to
  -- the target is one attempt: the content was copied to the temporary path, and then the mode and
  -- the owner that the request sets, the parent directory and the move to the destination were each
  -- done by their command or, where that failed, by the same command with sudo.
  pub copy_file-Placed :
      (fuel : ℕ) (env : Env W) (tr : Transport W C) (id : Bytes) (file : CopyFileRequest W C)
      (w : W) {w' : W}
      → SaysWhy env
      → copy_file fuel env tr id (some file) w ≡ some (returned (none, w'))
      → (w0 : W) × Placed tr file (tmp_path file id) w0 w'
  unfolding copy_file
  copy_file-Placed fuel env tr id file w why h =
      copy_to-Placed fuel env tr id file file.destination w why h

module _ {W : Type 0} (tr : Run W) where
  Follows-set_mode :
      (mode path : Bytes) {cmds : List Bytes} {w w' : W}
      → Follows tr (setting (λ mode. chmod_file mode path) mode ++ cmds) w w'
      → (w1 : W) × (set_mode tr mode path w ≡ on w1) × Follows tr cmds w1 w'
  Follows-set_mode [] path {w = w} h = (w, refl, h)
  Follows-set_mode (c ∷ mode) path (also {w1 = w1} way rest) =
      (w1, EitherWay-run_or_sudo tr _ _ _ way, rest)

  Follows-set_owner :
      (owner path : Bytes) {cmds : List Bytes} {w w' : W}
      → Follows tr (setting (λ owner. chown_file owner path) owner ++ cmds) w w'
      → (w1 : W) × (set_owner tr owner path w ≡ on w1) × Follows tr cmds w1 w'
  Follows-set_owner [] path {w = w} h = (w, refl, h)
  Follows-set_owner (c ∷ owner) path (also {w1 = w1} way rest) =
      (w1, EitherWay-run_or_sudo tr _ _ _ way, rest)

  Follows-last_two :
      (parent moved m n k l : Bytes) {w w' : W}
      → Follows tr (parent ∷ moved ∷ []) w w'
      → (run_or_sudo tr parent (with_sudo parent) m n w
          >>= (λ w. run_or_sudo tr moved (with_sudo moved) k l w))
        ≡ on w'
  Follows-last_two parent moved m n k l (also a (also b (no_more _))) =
      rw (EitherWay-run_or_sudo tr parent m n a) (EitherWay-run_or_sudo tr moved k l b)

module _ {W C : Type 0} where
  Placed-file_walk :
      (tr : Transport W C) (file : CopyFileRequest W C) (path : Bytes) (w : W) {w' : W}
      → Placed tr file path w w'
      → file_walk tr file path w ≡ on w'
  unfolding file_walk
  Placed-file_walk tr file path w (w1, copy, follows) =
      let (w2, mode, rest) = Follows-set_mode tr.run file.chmod path follows in
      let (w3, owner, last) = Follows-set_owner tr.run file.chown path rest in
      rw (copy, mode, owner) (Follows-last_two tr.run _ _ _ _ _ _ last)

  -- Where the context is live, the request has a destination, and the copy to the temporary path and
  -- then the mode, the owner, the parent directory and the move go well at the first attempt, each by
  -- its command or by the same with sudo, CopyFile ends with no error, whatever the retries are, and
  -- leaves the target as they do.
  pub copy_file-succeeds :
      (fuel : ℕ) (env : Env W) (tr : Transport W C) (id : Bytes) (file : CopyFileRequest W C)
      (w : W) {w' : W}
      → env.poll w ≡ active
      → file.destination ≢ []
      → Placed tr file (tmp_path file id) w w'
      → copy_file (suc fuel) env tr id (some file) w ≡ some (returned (none, w'))
  unfolding copy_file file_operations
  copy_file-succeeds fuel env tr id file w {w'} live there placed = go file.destination there
    where
      go :
          (destination : Bytes)
          → destination ≢ []
          → copy_to (suc fuel) env tr id file destination w ≡ some (returned (none, w'))
      go [] h = absurd (h refl)
      go (c ∷ destination) h =
          retried-first fuel env file.retry_opts _ w live
            (ap result_of (Placed-file_walk tr file (tmp_path file id) w placed))
