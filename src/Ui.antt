-- ===== src/Ui.antt =====
-- internal/ui/ui.go: two texts that a run prints, and both in the order of writing. A
-- bytes.Buffer takes every write, so no call has an error; the lock and the readers are not modelled.
pub mod Laws
use terraform_provider_enos.Prelude.{[], ◌∷◌, ◌++◌, Bytes}

pub record Buffered : Type 0 where
  pub stdout : Bytes
  pub stderr : Bytes
  pub combined : Bytes

abbrev pub new_buffered : Buffered
new_buffered = record { stdout = []; stderr = []; combined = [] }

abbrev write_stdout : Bytes → Buffered → Buffered
write_stdout s b = record b { stdout = b.stdout ++ s; combined = b.combined ++ s }

abbrev write_stderr : Bytes → Buffered → Buffered
write_stderr s b = record b { stderr = b.stderr ++ s; combined = b.combined ++ s }

-- Buffered.Write.
unfoldable pub write : Bytes → Bytes → Buffered → Buffered
write stdout stderr b = write_stderr stderr (write_stdout stdout b)

-- A newline where the buffer has bytes, and the text, unless it is empty.
abbrev pub separated : Bytes → Bytes → Bytes
separated [] s = s
separated (c ∷ has) s = b'\n' ∷ s

abbrev pub append_stdout : Bytes → Buffered → Buffered
append_stdout [] b = b
append_stdout (c ∷ s) b = write_stdout (separated b.stdout (c ∷ s)) b

abbrev pub append_stderr : Bytes → Buffered → Buffered
append_stderr [] b = b
append_stderr (c ∷ s) b = write_stderr (separated b.stderr (c ∷ s)) b

-- Buffered.Append.
unfoldable pub append : Bytes → Bytes → Buffered → Buffered
append stdout stderr b = append_stderr stderr (append_stdout stdout b)
