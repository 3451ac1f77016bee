-- ===== src/Lib.antt =====
-- loca-agent installs a machine as a client or as the server of a private inference set-up: a Windows
-- server runs llama.cpp behind a WireGuard tunnel, and a macOS client is enrolled with a token that the
-- server mints. This library models the Go packages that decide what is installed and written.
--
-- The parts, and the files that model them:
--   * internal/installer: Installer.antt has roles, the state that steps share, Step and FuncStep;
--     Installer/Engine.antt has Engine.Run, rollback and report over any type of state, with the calls
--     of the observers as a list of events. ctx.Err() is a function of the state.
--   * internal/installer/windows and internal/installer/mac: the plans, in Installer/Windows.antt,
--     Installer/Windows/Actions.antt and Steps.antt, and Installer/Mac.antt, over the Session of
--     Installer/Session.antt (shared state, operating system, printed lines). The fields of Deps that
--     are interfaces are fields of a record; Installer/Session/Controlled.antt has the tunnel that the
--     install command fills in, which is the Controller below.
--   * internal/wireguard: Wireguard.antt (data), Wireguard/Keys, Address, Token, Client (Enroll and
--     ServerIdentity.Config) and Render (templates/wireguard/wg.conf.tmpl).
--   * internal/wgtunnel: WgTunnel.antt (WriteConfig), WgTunnel/PeerStore, KeyStore and Controller.
--   * internal/config: Config.antt (schema.go) and Config/Load.antt (load.go).
--   * internal/model: Model.antt, Model/Source.antt (Fetch), Model/Verify.antt, Model/Download.antt.
--   * internal/llama: Llama.antt, Llama/Acquire.antt, Llama/Unzip.antt.
--   * internal/service: Service.antt. internal/errs: Errs.antt. internal/sys: Sys.antt and
--     Sys/Privilege.antt.
--   * internal/probe: Probe.antt and Probe/Version.antt (firstVersion, as a matcher for each of the two
--     regular expressions). internal/platform: Platform.antt, Platform/Human.antt (humanBytes) and
--     Platform/Detect.antt, with a child for each system.
--   * internal/opencode: OpenCode.antt. internal/ui: Ui.antt, over the bytes written and those to read.
--     internal/logging: Logging.antt, and Logging/Family.antt (WithAttrs and WithGroup). internal/cli and
--     internal/app: Cli.antt.
--   * internal/command: Command/Install.antt (resolveRole, both sets of dependencies and the run),
--     Command/Progress.antt (the two progress callbacks), Command/AddPeer.antt (of wireguard),
--     Command/Doctor.antt, Command/Status.antt and Command/Models.antt.
-- Base.antt holds what all share; Effect.antt has results and actions, in which a state that was
-- changed before an error stays changed; Base64, Filepath, Netip and Json are what the program uses of
-- Go's standard library, and Filepath/Rooted.antt has paths as lists of elements. Effect/Ensures.antt and Effect/Unseen.antt have the rules for what holds after
-- an action and for what an action leaves alone; Json/Read.antt and Wireguard/Render/Read.antt are
-- readers of JSON and of WireGuard's files that are independent of what writes them.
--
-- How they interact: before each command Cli.pre_run loads the config; the install command asks for
-- what the flags leave open, builds the dependencies of a plan from the packages and runs the engine on
-- it; a plan's steps call the packages below it through Deps and hand values on in State; add-peer
-- registers a client's reply in the peer store, renders the server's config and restarts the tunnel.
--
-- Parameters: the operating system (Sys.Os: files, processes, random bytes), the HTTP client and the
-- URLs that are refused, reading zip archives, walking a directory, encoding/json of records, YAML,
-- X25519, SHA-256, the text form of IPv6 addresses, the user id, exec.LookPath, the host's system and
-- number of processors, and opening the log file. Texts are byte strings. ToLower, ToUpper, EqualFold
-- and TrimSpace are those of ASCII, paths have the separator of Unix, and the texts of the standard
-- library's own errors are not modelled.
-- A zero permission, a missing map key and an empty list of files are written out as in the source;
-- where Go panics on the first file of a model without files, the model takes the empty name.
--
-- Fuel: the loop of NextClientAddress has one round for every address of the subnet and one more. The
-- loop of humanBytes has 64 rounds, and each divides a number below 2 ^ 64 by 1024, so that seven
-- are used at most. Printing a number has one round more than the number.
--
-- Not modelled: the wiring of cobra commands and the embedded files; the log lines of the packages and
-- the handler of JSON logs. The progress of a download is a list of reports, which a failed Fetch does
-- not return, and the reports of a run, the lines of its steps and the progress of its downloads are
-- kept apart, so their interleaving is not modelled. Lines of files under /proc are taken to fit in a
-- scanner's buffer of 64 KiB. Commands and requests get no context, so a cancelled one does not make a
-- command fail, nor does it in a rollback. In a text that is printed with %q only bytes of ASCII
-- are escaped. Unzip's paths are those of Unix, on Windows, too.
pub mod Base
pub mod Errs
pub mod Effect
pub mod Sys
pub mod Platform
pub mod Netip
pub mod Base64
pub mod Ui
pub mod Json
pub mod OpenCode
pub mod Logging
pub mod Wireguard
pub mod Filepath
pub mod WgTunnel
pub mod Config
pub mod Model
pub mod Llama
pub mod Service
pub mod Probe
pub mod Installer
pub mod Command
pub mod Cli
pub mod Tests
