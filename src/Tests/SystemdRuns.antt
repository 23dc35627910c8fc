-- ===== src/Tests/SystemdRuns.antt =====
-- Runs of the systemd client, and properties that are printed and decoded.
use terraform_provider_enos.Prelude.{
  ◌≡◌, refl, ◌≤◌, ℕ, zero, suc, ◌==◌, true, false, none, some, [], ◌∷◌, ◌++◌, Bytes, codes,
  bytes_eq, lookup, insert, if◌then◌else◌, arith, All, replicate, length, all_of, not,
  length-replicate,
}
use terraform_provider_enos.Go.{new, exec_error}
use terraform_provider_enos.Transport.{Command, Output}
use terraform_provider_enos.Systemd.Properties.{UnitProperties, has_properties, to_string}
use terraform_provider_enos.Systemd.Decode.{decode_unit_properties_from_show, max_scan_token_size}
use terraform_provider_enos.Systemd.Decode.RoundTrip.{
  LineFits, Distinct, Lacks, line, decode_cut, decode-to_string,
}
use terraform_provider_enos.Systemd.Systemctl
use terraform_provider_enos.Systemd.Systemctl.{
  SystemctlCommandReq, new_run_systemctl_command, with_unit_name,
}
use terraform_provider_enos.Systemd.Client.{restart_service, loaded_and_active}
use terraform_provider_enos.Systemd.Client.Restart.{restart_service_plan, restart_service_enables}
use terraform_provider_enos.Systemd.Client.Plan.{
  recording, view, show_command, stop_command, start_command, enable_now, run_plan, restart_plan,
}
use terraform_provider_enos.Tests.Samples.{output}

-- A target whose unit is loaded, active and enabled, and whose start fails; and one that shows nothing.
abbrev shown_text : Bytes
shown_text = codes "LoadState=loaded\nActiveState=active\nUnitFileState=enabled\n"

abbrev target : Command → Output
target command =
    if bytes_eq command.cmd (codes "sudo systemctl start vault.service")
    then output [] (some (exec_error 1 (new "exit")))
    else output shown_text none

abbrev silent : Command → Output
silent command = output [] none

restart_service_plan_example :
    view (restart_service (recording target) (codes "vault") [])
    ≡ run_plan target
        (show_command (codes "vault") ∷ [])
        (restart_plan (codes "vault") (decode_unit_properties_from_show shown_text).0)
unfolding bytes_eq Systemctl.to_string
restart_service_plan_example =
    restart_service_plan target (codes "vault") [] refl (λ e. ground arith)

restart_service_enables_example :
    let props = (decode_unit_properties_from_show shown_text).0 in
    view (restart_service (recording target) (codes "vault") [])
    ≡ run_plan target (show_command (codes "vault") ∷ []) (
        (if has_properties props loaded_and_active then stop_command (codes "vault") ∷ [] else [])
        ++ enable_now (codes "vault") ∷ start_command (codes "vault") ∷ [])
unfolding bytes_eq Systemctl.to_string decode_unit_properties_from_show lookup insert
restart_service_enables_example =
    restart_service_enables target (codes "vault") [] refl (λ e. ground arith) refl

abbrev dotted : SystemctlCommandReq
dotted = with_unit_name (codes "data/vault.d") new_run_systemctl_command

abbrev printed : UnitProperties
printed = (codes "ActiveState", codes "active") ∷ (codes "Environment", codes "A=1") ∷ []

all_of-Lacks : (b : ℕ) (s : Bytes) → all_of (λ c. not (c == b)) s ≡ true → Lacks b s
all_of-Lacks b [] h = tt
all_of-Lacks b (c ∷ s) h = (ground arith, all_of-Lacks b s (ground arith))

printed-Fits : All LineFits printed
printed-Fits = (
  (record {
    name_plain = all_of-Lacks b'=' (codes "ActiveState") refl;
    one_line = all_of-Lacks b'\n' (line (codes "ActiveState", codes "active")) refl;
    no_cr = refl;
    short = omega arith;
  }),
  (
    (record {
      name_plain = all_of-Lacks b'=' (codes "Environment") refl;
      one_line = all_of-Lacks b'\n' (line (codes "Environment", codes "A=1")) refl;
      no_cr = refl;
      short = omega arith;
    }),
    tt,
  ),
)

printed-Distinct : Distinct printed
unfolding bytes_eq lookup
printed-Distinct = (refl, (refl, tt))

decode-to_string_example : decode_unit_properties_from_show (to_string printed) ≡ (printed, none)
decode-to_string_example = decode-to_string printed printed-Fits printed-Distinct

-- A line of 64 KiB between the properties and the text that is lost.
Lacks-replicate : (n c b : ℕ) → (c == b) ≡ false → Lacks b (replicate n c)
Lacks-replicate zero c b h = tt
Lacks-replicate (suc n) c b h = (h, Lacks-replicate n c b h)

long_enough : (n c : ℕ) → n ≤ length (replicate n c)
long_enough n c = rw (length-replicate n c) (omega arith)

decode_cut_example :
    decode_unit_properties_from_show (
      to_string printed
      ++ (replicate max_scan_token_size b'x' ++ b'\n' ∷ codes "SubState=running\n"))
    ≡ (printed, none)
decode_cut_example =
    decode_cut printed (replicate max_scan_token_size b'x') (codes "SubState=running\n")
      printed-Fits printed-Distinct (Lacks-replicate max_scan_token_size b'x' b'\n' refl)
      (long_enough max_scan_token_size b'x')
