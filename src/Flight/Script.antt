-- ===== src/Flight/Script.antt =====
-- internal/remoteflight/script.go: a script is copied, run, and removed unless the request says no.
pub mod Laws
use terraform_provider_enos.Prelude.{
  ℕ, Bool, true, false, Option, none, some, List, [], ◌∷◌, ◌++◌, Bytes, codes, insert,
}
use terraform_provider_enos.Go.{apply_opts, Err, wrap, text, end, Ran, returned, panicked}
use terraform_provider_enos.Transport.{Command, Run, Output, new_command, with_env_vars}
use terraform_provider_enos.Retry.{Env}
use terraform_provider_enos.Ui.{Buffered, new_buffered, append}
use terraform_provider_enos.Flight.Attempts.{Transport}
use terraform_provider_enos.Flight.File.{CopyFileRequest, copy_file, three_times}
use terraform_provider_enos.Flight.Unzip.{sudo_if}

pub record RunScriptRequest (W C : Type 0) : Type 0 where
  pub env : List (Bytes × Bytes)
  pub no_cleanup : Bool
  pub sudo : Bool
  pub copy_file_request : CopyFileRequest W C

pub record RunScriptResponse : Type 0 where
  pub stdout : Bytes
  pub stderr : Bytes

abbrev pub RunScriptRequestOpt : Type 0 → Type 0 → Type 0
RunScriptRequestOpt W C = RunScriptRequest W C → RunScriptRequest W C

-- maps.Copy.
abbrev copy_into : List (Bytes × Bytes) → List (Bytes × Bytes) → List (Bytes × Bytes)
copy_into env [] = env
copy_into env ((k, v) ∷ more) = copy_into (insert k v env) more

module _ {W C : Type 0} where
  -- `nothing` stands for the nil content, `id` is random.
  abbrev pub new_run_script_request :
      C → Bytes → List (RunScriptRequestOpt W C) → RunScriptRequest W C
  new_run_script_request nothing id opts = apply_opts opts (record {
    env = [];
    no_cleanup = false;
    sudo = false;
    copy_file_request = record {
      content = nothing;
      tmp_dir = codes "/tmp";
      chmod = [];
      chown = [];
      destination = codes "/tmp/remoteflight_run_script_" ++ id;
      retry_opts = three_times W;
    };
  })

  abbrev on_copy :
      (CopyFileRequest W C → CopyFileRequest W C) → RunScriptRequest W C → RunScriptRequest W C
  on_copy f cf = record cf { copy_file_request = f cf.copy_file_request }

  abbrev pub with_env : List (Bytes × Bytes) → RunScriptRequestOpt W C
  with_env env cf = record cf { env = copy_into cf.env env }

  abbrev pub with_no_cleanup : RunScriptRequestOpt W C
  with_no_cleanup cf = record cf { no_cleanup = true }

  abbrev pub with_script_use_sudo : RunScriptRequestOpt W C
  with_script_use_sudo cf = record cf { sudo = true }

  abbrev pub with_content : C → RunScriptRequestOpt W C
  with_content content = on_copy (λ c. record c { content = content })

  abbrev pub with_tmp_dir : Bytes → RunScriptRequestOpt W C
  with_tmp_dir dir = on_copy (λ c. record c { tmp_dir = dir })

  abbrev pub with_chmod : Bytes → RunScriptRequestOpt W C
  with_chmod chmod = on_copy (λ c. record c { chmod = chmod })

  abbrev pub with_chown : Bytes → RunScriptRequestOpt W C
  with_chown chown = on_copy (λ c. record c { chown = chown })

  abbrev pub with_script_destination : Bytes → RunScriptRequestOpt W C
  with_script_destination destination = on_copy (λ c. record c { destination = destination })

abbrev pub response_of : Buffered → RunScriptResponse
response_of ui = record { stdout = ui.stdout; stderr = ui.stderr }

abbrev pub execution_error : Err → Bytes → Err
execution_error e stderr = wrap "executing script: %w: %s" (text stderr end) e

abbrev pub cleanup_error : Err → Err
cleanup_error e = wrap "cleaning up script file: %w" end e

module _ {W C : Type 0} where
  abbrev pub script_command : RunScriptRequest W C → Command
  script_command req =
      with_env_vars req.env (new_command (sudo_if req.sudo req.copy_file_request.destination))

  abbrev pub cleanup_command : RunScriptRequest W C → Command
  cleanup_command req =
      with_env_vars req.env (new_command (codes "rm -f " ++ req.copy_file_request.destination))

module _ {W : Type 0} where
  abbrev cleaned : Buffered → Output × W → Option Err → RunScriptResponse × Option Err × W
  cleaned ui (out, w) none = (response_of (append out.stdout out.stderr ui), none, w)
  cleaned ui (out, w) (some e) =
      (response_of (append out.stdout out.stderr ui), some (cleanup_error e), w)

  abbrev clean_up : Buffered → Output × W → RunScriptResponse × Option Err × W
  clean_up ui ran = cleaned ui ran ran.0.err

  abbrev unless_kept : Bool → Run W → Command → Buffered → W → RunScriptResponse × Option Err × W
  unless_kept true tr cleanup ui w = (response_of ui, none, w)
  unless_kept false tr cleanup ui w = clean_up ui (tr cleanup w)

  abbrev executed :
      Bool → Run W → Command → Output × W → Option Err → RunScriptResponse × Option Err × W
  executed keep tr cleanup (out, w) (some e) = (
    response_of (append out.stdout out.stderr new_buffered),
    some (execution_error e out.stderr),
    w,
  )
  executed keep tr cleanup (out, w) none =
      unless_kept keep tr cleanup (append out.stdout out.stderr new_buffered) w

module _ {W C : Type 0} where
  -- The run of a script that is on the target, and its removal.
  unfoldable pub execute : Run W → RunScriptRequest W C → W → RunScriptResponse × Option Err × W
  unfolding append
  execute tr req w =
      let ran : Output × W = tr (script_command req) w in
      executed req.no_cleanup tr (cleanup_command req) ran ran.0.err

  abbrev after_copy :
      Run W
      → RunScriptRequest W C
      → Option (Ran (Option Err × W))
      → Option (Ran (RunScriptResponse × Option Err × W))
  after_copy tr req none = none
  after_copy tr req (some panicked) = some panicked
  after_copy tr req (some (returned (some e, w))) =
      some (returned (response_of new_buffered, some e, w))
  after_copy tr req (some (returned (none, w))) = some (returned (execute tr req w))

  unfoldable pub run_script :
      ℕ
      → Env W
      → Transport W C
      → Bytes
      → RunScriptRequest W C
      → W
      → Option (Ran (RunScriptResponse × Option Err × W))
  unfolding execute copy_file
  run_script fuel env tr id req w =
      after_copy tr.run req (copy_file fuel env tr id (some req.copy_file_request) w)
