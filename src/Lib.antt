-- ===== src/Lib.antt =====
-- A model of the core of terraform-provider-enos: how the provider routes Terraform's requests to its
-- resources, and how it acts on a target: it retries, copies files and scripts, manages users, asks what
-- the target is, runs systemctl, reads the state of a Vault or a Consul node and waits for a state that
-- checks pass on; it initializes and unseals a Vault node between two such waits.
--
-- The parts and how they interact. A resource of the provider waits for a Vault node with WaitForState
-- (internal/remoteflight/vault/state.go). It retries, by the loop of internal/retry/retry.go, a function
-- that calls GetState and then runs the checks of internal/remoteflight/vault/checks.go on the state.
-- GetState runs commands through a transport: the systemd client's ShowProperties, `vault status`, and
-- enos-flight-control for /v1/sys/seal-status and /v1/sys/health. Consul nodes are waited for alike.
-- The server (internal/server) passes each request to a router, which looks the resource up by its name,
-- configures it, calls it, and lets the resource's state handle a failure.
--
-- Files and code:
--   Go               errors, panics on nil pointers and on indices, slices, %d and %t
--   Transport        internal/transport/command/command.go: New, WithEnvVar(s), Cmd
--   Retry            internal/retry/retry.go: NewRetrier, the options, Run, ShouldRetry, Retry
--   Retry/Interval   IntervalDuration, IntervalExponential, IntervalFibonacci
--   Systemd/Properties, Decode, Systemctl, Client
--                    internal/remoteflight/systemd: properties.go, decodeUnitPropertiesFromShow and the
--                    calls of client.go, systemctl.go, UnitType of unit.go
--   Vault/Status, Health, SealStatus
--                    internal/remoteflight/vault: GetStatus, GetHealth, GetSealStatus, IsSealed of each
--   Bodies           what the requests of Vault and Consul make of a run that prints a JSON body
--   Vault/Responses, Endpoints
--                    the responses of config_state.go, ha_status.go, host_info.go, raft.go and
--                    replication.go, and their reads by `vault read`
--   Stages, Waiting  what the two GetState and the two WaitForState share: reads with early returns,
--                    and a retry of a try with checks
--   Vault/State      State and its IsSealed, IsInitialized, ReplicationEnabled, HAEnabled, StorageType
--   Vault/GetState   GetState stage by stage
--   Vault/NodeReaders, WaitForState
--                    the readers that are modelled put into GetState's interface; WaitForState with
--                    its function checkState, on Stages and Waiting
--   Vault/Unseal, Init
--                    unseal.go and init.go: Unseal and Init, each between two waits
--   Vault/Checks     the checks: Base (loops), Node, Pods, Cluster
--   Consul           internal/remoteflight/consul: checks.go, GetState and WaitForState of state.go,
--                    the responses that they read, the Requests for them, and Cli (validate.go,
--                    version.go)
--   Indent           internal/strings/strings.go
--   Diags, Ui        internal/diags/diagnostics.go; Buffered of internal/ui/ui.go
--   Server           internal/server: Terraform (what the plugin libraries give, a parameter),
--                    ResourceRouter (router.go) and ResourceRouter/Change (plan.go, apply.go,
--                    state/state.go), DataRouter (datarouter/router.go, server.go)
--   Flight           internal/remoteflight: Errors, Directory, File, Unzip, Download, Script; User with
--                    Find and Update; OsRelease and Target with Distro, HomeDir and Gather (target.go)
--   Flight/Install   flightcontrol.go and internal/flightcontrol/flightcontrol.go (Embedded), with what
--                    the two GetState make of its response (Composed)
--   Flight/Paths, Attempts
--                    path/filepath on Unix; a command that is run again with sudo, and a call of
--                    NewRetrier and Retry, which these files share
--   Tests            runs on concrete nodes, pods, servers and retriers
-- The children of a module named for what they prove hold its lemmas.
--
-- State. An operation on a target takes the target's state, of any type `W`, and gives the state after
-- it; a transport is a function of that shape. A pointer is an `Option`, a text is its list of bytes, a
-- map is an association list in the order of an iteration. Where a nil pointer or an index would panic,
-- the operation is a `Ran`, which returns or panics. An error keeps its format, what it wraps and what
-- it joins, as far as errors.Is and errors.As see them.
-- An error diagnostic that a failure handler changes through its pointer is changed in its place in the
-- list, in which each pointer stands once.
--
-- Bounds and fuel. The retry loop runs on fuel, one unit for each turn; it is enough to give as many
-- units as the maximum of calls, or one more than a measure that each failed try lowers, since a loop
-- without a maximum ends only when its context does. `%d` has fuel for as many digits as the number is
-- large. A time.Duration wraps at 2 ^ 64 as the bits of an int64 do. The bufio.Scanner of the decoder
-- has its limit of 64 KiB for a line.
--
-- Not modelled: the String methods that print the state of a Vault node, the options of the state
-- requests, GetUnitJournal, CreateUnitFile and ListServices, and the installation of
-- packages; the schemas and validations of the Terraform resources, Boundary, the
-- transports themselves, and the clients of other services. json.Unmarshal, Terraform's plugin
-- libraries and the transports are arguments of the code that uses them.
pub mod Prelude
pub mod Go
pub mod Transport
pub mod Bodies
pub mod Systemd
pub mod Retry
pub mod Indent
pub mod Stages
pub mod Waiting
pub mod Consul
pub mod Vault
pub mod Diags
pub mod Server
pub mod Ui
pub mod Flight
pub mod Tests
