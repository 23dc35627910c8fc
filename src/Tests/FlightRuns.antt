-- ===== src/Tests/FlightRuns.antt =====
-- Runs of the commands of internal/remoteflight on targets that log what is run.
use terraform_provider_enos.Prelude.{
  inr, ◌≡◌, refl, inl, arith, Option, none, some, List, [], ◌∷◌, Bytes, codes, bytes_eq, lookup,
  if◌then◌else◌, map,
}
use terraform_provider_enos.Go.{Err, new, returned}
use terraform_provider_enos.Transport.{Output, Run, command_line}
use terraform_provider_enos.Retry.{
  Env, active, with_max_retries, with_interval_func, with_retrier_func, default_retrier,
  new_retrier, retry_loop, retry_turn, start, run,
}
use terraform_provider_enos.Retry.Outcome.{SaysWhy}
use terraform_provider_enos.Systemd.Properties.{to_string}
use terraform_provider_enos.Ui.{append}
use terraform_provider_enos.Flight.Paths.{split, clean, join_paths, base, dir}
use terraform_provider_enos.Flight.Attempts.{Transport, run_or_sudo, retried}
use terraform_provider_enos.Flight.File.{
  CopyFileRequest, new_copy_file_request, with_copy_file_chmod, with_copy_file_destination,
  file_walk, file_operations, copy_file, tmp_path,
}
use terraform_provider_enos.Flight.File.Laws.{Placed, copy_file-Placed, copy_file-succeeds}
use terraform_provider_enos.Flight.Attempts.Rules.{also, no_more}
use terraform_provider_enos.Flight.Script.{
  RunScriptRequest, new_run_script_request, with_script_destination, execute, run_script,
}
use terraform_provider_enos.Flight.Script.Laws.{Executed, run_script-Executed}
use terraform_provider_enos.Flight.User.{User, no_user}
use terraform_provider_enos.Flight.User.Find.{
  has_prefix, find_user, find_user_get_ent, decode_passwd_line,
}
use terraform_provider_enos.Flight.User.Decoded.{Entry, FoundOf, find_user-FoundOf}
use terraform_provider_enos.Flight.User.Update.{create_or_update_user, found_after}
use terraform_provider_enos.Flight.User.Laws.{run_all, create_or_update_user-RunsAll}
use terraform_provider_enos.Flight.OsRelease.{find_in_os_release}
use terraform_provider_enos.Flight.OsRelease.Laws.{quoted, find_in_os_release-to_string}

-- The target is the log of its commands, the last one first.
abbrev Log : Type 0
Log = List Bytes

abbrev env : {W : Type 0} → Env W
env = record { poll = λ w. active; sleep = λ d w. w }

abbrev says_why : {W : Type 0} → SaysWhy (env {W = W})
says_why w = inl refl

abbrev outcome : Bytes → Option Err → Output
outcome stdout err = record { stdout = stdout; stderr = []; err = err }

-- A move without sudo is refused.
abbrev logged : Run Log
logged command log = (
  outcome [] (
      if has_prefix (command_line command) (codes "mv ")
      then some (new "permission denied")
      else none),
  command_line command ∷ log,
)

abbrev host : Transport Log Bytes
host = record { run = logged; copy = λ content path log. (none, content ∷ log) }

abbrev program : CopyFileRequest Log Bytes
program =
    new_copy_file_request (codes "#!")
      (with_copy_file_chmod (codes "0755") ∷ with_copy_file_destination (codes "/opt/x") ∷ [])

abbrev copied_log : Log
copied_log =
    codes "sudo mv /tmp/x-7 /opt/x"
    ∷ codes "mv /tmp/x-7 /opt/x"
    ∷ codes "mkdir -p '/opt'"
    ∷ codes "chmod 0755 /tmp/x-7"
    ∷ codes "#!"
    ∷ []

copy_file-Placed_example :
    (w0 : Log) × Placed host program (tmp_path program (codes "7")) w0 copied_log
unfolding copy_file file_operations file_walk run_or_sudo retried new_retrier with_retrier_func
    with_max_retries with_interval_func default_retrier retry_loop retry_turn start run join_paths
    base dir clean split bytes_eq command_line
copy_file-Placed_example = copy_file-Placed 3 env host (codes "7") program [] says_why refl

copy_file-succeeds_example :
    copy_file 1 env host (codes "7") (some program) [] ≡ some (returned (none, copied_log))
unfolding run join_paths base dir clean split bytes_eq command_line
copy_file-succeeds_example =
    copy_file-succeeds 0 env host (codes "7") program [] refl (λ e. cc e)
      (
        _,
        refl,
        also (inl (refl, refl))
            (also (inl (refl, refl)) (also (inr (_, (_, refl, refl), (refl, refl))) (no_more _))),
      )

abbrev script : RunScriptRequest Log Bytes
script = new_run_script_request (codes "#!") (codes "3") (with_script_destination (codes "/s") ∷ [])

run_script-Executed_example :
    (w0 : Log) × (w1 : Log) × Placed host script.copy_file_request
      (tmp_path script.copy_file_request (codes "7"))
      w0
      w1
    × Executed host.run script w1 (
        codes "rm -f /s"
        ∷ codes "/s"
        ∷ codes "sudo mv /tmp/s-7 /s"
        ∷ codes "mv /tmp/s-7 /s"
        ∷ codes "mkdir -p '/'"
        ∷ codes "#!"
        ∷ [])
unfolding run_script execute append copy_file file_operations file_walk run_or_sudo retried
    new_retrier with_retrier_func with_max_retries with_interval_func default_retrier retry_loop
    retry_turn start run join_paths base dir clean split bytes_eq command_line
run_script-Executed_example = run_script-Executed 3 env host (codes "7") script [] says_why refl

-- A target that has the user a, and says so to getent.
abbrev has_user : Run Log
has_user command log = (outcome (codes "a:x:1:2::/h:/sh") none, command.cmd ∷ log)

abbrev wanted : User
wanted = record no_user {
  name = some (record { address = 0; value = codes "a" });
  home_dir = some (record { address = 1; value = codes "/h" });
}

-- Its entry.
abbrev entry : Entry
entry = record {
  name = codes "a";
  password = codes "x";
  uid = codes "1";
  gid = codes "2";
  gecos = [];
  home = codes "/h";
  shell = codes "/sh";
}

find_user-FoundOf_example :
    FoundOf entry (codes "getent passwd a" ∷ []) (find_user has_user (codes "a") ([], 2))
find_user-FoundOf_example =
    find_user-FoundOf has_user (codes "a") entry [] 2
      (
        ground arith,
        ground arith,
        ground arith,
        ground arith,
        ground arith,
        ground arith,
        ground arith,
      )
      (inl (refl, refl, refl))

create_or_update_user-RunsAll_example :
    create_or_update_user has_user (some wanted) ([], 2)
    ≡ found_after
        (run_all has_user (codes "sudo usermod -d /h a" ∷ []) (codes "getent passwd a" ∷ []))
        9
        (find_user has_user (codes "a"))
unfolding find_user find_user_get_ent decode_passwd_line split
create_or_update_user-RunsAll_example =
    create_or_update_user-RunsAll has_user wanted (record { address = 0; value = codes "a" }) [] 2
      (omega arith, omega arith, tt, tt, tt) refl refl

abbrev release : List (Bytes × Bytes)
release = (codes "NAME", codes "Red Hat") ∷ (codes "ID", codes "rhel") ∷ []

find_in_os_release-to_string_example :
    find_in_os_release (to_string (map quoted release)) (codes "ID") ≡ (codes "rhel", none)
unfolding lookup bytes_eq
find_in_os_release-to_string_example =
    find_in_os_release-to_string release (codes "ID")
      (
        record {
          fits = record {
            name_plain = ground arith;
            one_line = ground arith;
            no_cr = refl;
            short = omega arith;
          };
          no_equals = ground arith;
          no_quotes = ground arith;
        },
        (
          record {
            fits = record {
              name_plain = ground arith;
              one_line = ground arith;
              no_cr = refl;
              short = omega arith;
            };
            no_equals = ground arith;
            no_quotes = ground arith;
          },
          tt,
        ),
      )
      refl
