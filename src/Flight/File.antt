-- ===== src/Flight/File.antt =====
-- internal/remoteflight/file.go: a file is copied to a temporary path, gets its mode and owner there, and
-- is moved; a file is removed. Both are retried.
pub mod Laws
use terraform_provider_enos.Prelude.{ℕ, Option, none, some, List, [], ◌∷◌, ◌++◌, Bytes, codes}
use terraform_provider_enos.Go.{Err, new, wrap, end, Ran, returned, pos}
use terraform_provider_enos.Transport.{Run, Output, new_command}
use terraform_provider_enos.Retry.{Env, Func, RetrierOpt, with_max_retries, with_interval_func}
use terraform_provider_enos.Retry.Interval.{second, interval_fibonacci}
use terraform_provider_enos.Flight.Paths.{join_paths, base, dir}
use terraform_provider_enos.Flight.Attempts.{
  Transport, Walk, on, failed, ◌>>=◌, run_or_sudo, retried, wrapped, with_sudo,
}

pub record CopyFileRequest (W C : Type 0) : Type 0 where
  pub content : C
  pub tmp_dir : Bytes
  pub chmod : Bytes
  pub chown : Bytes
  pub destination : Bytes
  pub retry_opts : List (RetrierOpt W Bytes)

pub record DeleteFileRequest (W : Type 0) : Type 0 where
  pub path : Bytes
  pub retry_opts : List (RetrierOpt W Bytes)

abbrev pub CopyFileRequestOpt : Type 0 → Type 0 → Type 0
CopyFileRequestOpt W C = CopyFileRequest W C → CopyFileRequest W C

abbrev pub DeleteFileRequestOpt : Type 0 → Type 0
DeleteFileRequestOpt W = DeleteFileRequest W → DeleteFileRequest W

module _ (W : Type 0) where
  abbrev pub three_times : List (RetrierOpt W Bytes)
  three_times = with_max_retries (pos 3) ∷ with_interval_func (interval_fibonacci second) ∷ []

module _ {W C : Type 0} where
  abbrev apply_copy_opts : List (CopyFileRequestOpt W C) → CopyFileRequest W C → CopyFileRequest W C
  apply_copy_opts [] cf = cf
  apply_copy_opts (opt ∷ opts) cf = apply_copy_opts opts (opt cf)

  -- The content is nil until an option gives it; `nothing` stands for nil.
  abbrev pub new_copy_file_request : C → List (CopyFileRequestOpt W C) → CopyFileRequest W C
  new_copy_file_request nothing opts = apply_copy_opts opts (record {
    content = nothing;
    tmp_dir = codes "/tmp";
    chmod = [];
    chown = [];
    destination = [];
    retry_opts = three_times W;
  })

  abbrev pub with_copy_file_content : C → CopyFileRequestOpt W C
  with_copy_file_content content cf = record cf { content = content }

  abbrev pub with_copy_file_tmp_dir : Bytes → CopyFileRequestOpt W C
  with_copy_file_tmp_dir dir cf = record cf { tmp_dir = dir }

  abbrev pub with_copy_file_chmod : Bytes → CopyFileRequestOpt W C
  with_copy_file_chmod chmod cf = record cf { chmod = chmod }

  abbrev pub with_copy_file_chown : Bytes → CopyFileRequestOpt W C
  with_copy_file_chown chown cf = record cf { chown = chown }

  abbrev pub with_copy_file_destination : Bytes → CopyFileRequestOpt W C
  with_copy_file_destination destination cf = record cf { destination = destination }

  abbrev pub with_copy_file_retry_options : List (RetrierOpt W Bytes) → CopyFileRequestOpt W C
  with_copy_file_retry_options opts cf = record cf { retry_opts = opts }

module _ {W : Type 0} where
  abbrev apply_delete_opts :
      List (DeleteFileRequestOpt W) → DeleteFileRequest W → DeleteFileRequest W
  apply_delete_opts [] cf = cf
  apply_delete_opts (opt ∷ opts) cf = apply_delete_opts opts (opt cf)

  abbrev pub new_delete_file_request : List (DeleteFileRequestOpt W) → DeleteFileRequest W
  new_delete_file_request opts =
      apply_delete_opts opts (record { path = []; retry_opts = three_times W })

  abbrev pub with_delete_file_retry_options : List (RetrierOpt W Bytes) → DeleteFileRequestOpt W
  with_delete_file_retry_options opts cf = record cf { retry_opts = opts }

  abbrev pub with_delete_file_path : Bytes → DeleteFileRequestOpt W
  with_delete_file_path path cf = record cf { path = path }

abbrev pub two_words : Bytes → Bytes → Bytes
two_words a b = a ++ (codes " " ++ b)

abbrev pub chmod_file : Bytes → Bytes → Bytes
chmod_file mode path = codes "chmod " ++ two_words mode path

abbrev pub chown_file : Bytes → Bytes → Bytes
chown_file owner path = codes "chown " ++ two_words owner path

abbrev pub make_dir : Bytes → Bytes
make_dir path = codes "mkdir -p '" ++ (path ++ codes "'")

abbrev pub move : Bytes → Bytes → Bytes
move from to = codes "mv " ++ two_words from to

abbrev pub remove : Bytes → Bytes
remove path = codes "rm -r " ++ (path ++ (codes " || sudo rm -r " ++ path))

module _ {W : Type 0} where
  abbrev set_mode : Run W → Bytes → Bytes → W → Walk W
  set_mode tr [] path w = on w
  set_mode tr (c ∷ mode) path w =
      run_or_sudo tr (chmod_file (c ∷ mode) path) (with_sudo (chmod_file (c ∷ mode) path))
        (codes "changing file permissions") (codes "changing file permissions with sudo") w

  abbrev set_owner : Run W → Bytes → Bytes → W → Walk W
  set_owner tr [] path w = on w
  set_owner tr (c ∷ owner) path w =
      run_or_sudo tr (chown_file (c ∷ owner) path) (with_sudo (chown_file (c ∷ owner) path))
        (codes "changing file ownership") (codes "changing file ownership with sudo") w

  abbrev make_parent : Run W → Bytes → W → Walk W
  make_parent tr destination w =
      run_or_sudo tr (make_dir (dir destination)) (with_sudo (make_dir (dir destination)))
        (codes "creating file's directory on target host")
        (codes "creating file's directory on target host") w

  abbrev move_file : Run W → Bytes → Bytes → W → Walk W
  move_file tr path destination w =
      run_or_sudo tr (move path destination) (with_sudo (move path destination))
        (codes "moving file to destination path, cmd: " ++ move path destination)
        (codes "moving file to destination path with sudo, cmd: "
          ++ with_sudo (move path destination))
        w

  abbrev pub copied : Option Err × W → Walk W
  copied (none, w) = on w
  copied (some e, w) = failed (wrap "copying file to target host: %w" end e) w

  abbrev pub result_of : Walk W → Ran (Option Bytes × Option Err × W)
  result_of (on w) = returned (none, none, w)
  result_of (failed e w) = returned (none, some e, w)

module _ {W C : Type 0} where
  -- One attempt of CopyFile.
  unfoldable pub file_walk : Transport W C → CopyFileRequest W C → Bytes → W → Walk W
  unfolding run_or_sudo dir
  file_walk tr file path w =
      copied (tr.copy file.content path w)
      >>= (λ w. set_mode tr.run file.chmod path w)
      >>= (λ w. set_owner tr.run file.chown path w)
      >>= (λ w. make_parent tr.run file.destination w)
      >>= (λ w. move_file tr.run path file.destination w)

  unfoldable pub file_operations : Transport W C → CopyFileRequest W C → Bytes → Func W Bytes
  unfolding file_walk
  file_operations tr file path w = result_of (file_walk tr file path w)

  abbrev pub tmp_path : CopyFileRequest W C → Bytes → Bytes
  tmp_path file id = join_paths file.tmp_dir (base file.destination ++ (codes "-" ++ id))

  abbrev copy_to :
      ℕ
      → Env W
      → Transport W C
      → Bytes
      → CopyFileRequest W C
      → Bytes
      → W
      → Option (Ran (Option Err × W))
  copy_to fuel env tr id file [] w =
      some (returned (some (new "you must supply a destination path"), w))
  copy_to fuel env tr id file (c ∷ destination) w =
      retried fuel env file.retry_opts (file_operations tr file (tmp_path file id)) w

  -- CopyFile; `id` is the random name of the temporary file.
  unfoldable pub copy_file :
      ℕ
      → Env W
      → Transport W C
      → Bytes
      → Option (CopyFileRequest W C)
      → W
      → Option (Ran (Option Err × W))
  unfolding retried file_operations
  copy_file fuel env tr id none w = some (returned (some (new "no file copy request provided"), w))
  copy_file fuel env tr id (some file) w = copy_to fuel env tr id file file.destination w

module _ {W : Type 0} where
  abbrev removed : Output × W → Ran (Option Bytes × Option Err × W)
  removed (out, w) = elim out.err [
    | none ↦ returned (none, none, w)
    | some e ↦ returned (none, some (wrapped e out (codes "deleting file")), w)
  ]

  unfoldable pub rm_file : Run W → Bytes → Func W Bytes
  rm_file tr path w = removed (tr (new_command (remove path)) w)

  unfoldable pub delete_file :
      ℕ → Env W → Run W → Option (DeleteFileRequest W) → W → Option (Ran (Option Err × W))
  unfolding retried rm_file
  delete_file fuel env tr none w = some (returned (some (new "no file delete request provided"), w))
  delete_file fuel env tr (some req) w = retried fuel env req.retry_opts (rm_file tr req.path) w
