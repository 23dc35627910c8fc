-- ===== src/Transport.antt =====
-- internal/transport: the commands that a transport runs on a target, and what a run gives back.
-- The transports themselves (SSH, Kubernetes, Nomad) are an argument of their users.
use terraform_provider_enos.Prelude.{List, [], ◌∷◌, ◌++◌, Option, Bytes, codes, insert}
use terraform_provider_enos.Go.{Err}

-- command.cmd: the command and its environment variables.
pub record Command : Type 0 where
  pub env : List (Bytes × Bytes)
  pub cmd : Bytes

pub record Output : Type 0 where
  pub stdout : Bytes
  pub stderr : Bytes
  pub err : Option Err

-- Transport.Run, over the state `W` of the target.
abbrev pub Run : Type 0 → Type 0
Run W = Command → W → Output × W

-- command.New with no options, and with WithEnvVar or WithEnvVars.
abbrev pub new_command : Bytes → Command
new_command command = record { env = []; cmd = command }

abbrev pub with_env_var : Bytes → Bytes → Command → Command
with_env_var key value c = record c { env = insert key value c.env }

abbrev pub with_env_vars : List (Bytes × Bytes) → Command → Command
with_env_vars [] c = c
with_env_vars ((k, v) ∷ vars) c = with_env_vars vars (with_env_var k v c)

-- cmd.Cmd: the environment in front of the command. A Go map has no order; this one has its own.
abbrev pub assignments : List (Bytes × Bytes) → Bytes
assignments [] = []
assignments ((k, v) ∷ env) = k ++ (codes "='" ++ (v ++ (codes "' " ++ assignments env)))

unfoldable pub command_line : Command → Bytes
command_line c = assignments c.env ++ c.cmd
