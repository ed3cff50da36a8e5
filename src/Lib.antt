-- ===== src/Lib.antt =====
-- Abora Framework: a daemon that reports on a host and applies its package updates, a root helper
-- that runs apt-get for it, and the crates they share. This library models the logic that
-- decides what happens to the machine.
--
-- How the parts interact: aborad checks for updates and, when asked, writes a request file. The root
-- helper trusts nothing but the configuration and that file: it validates the request, asks the
-- update policy for the local time, simulates the upgrade with apt-get, installs what is both
-- requested and upgradable, writes a result file, removes the request and may reboot. The daemon
-- turns the result into an entry of its store.
--
-- Which file models which part (paths from the repository's root):
--   Common/               lists, results, texts, decimal numbers, words and orders as the code uses
--                         them
--   Core/Version          crates/abora-core/src/lib.rs: Version, parse, Display
--   Update                crates/abora-update/src/lib.rs: the shared data types
--   Update/Host           crates/abora-update/src/host.rs: package names, parse_simulation, and in
--                         Provider the methods of HostPackageProvider
--   Update/Apply          crates/abora-update/src/apply.rs: validate_request, install_args,
--                         read_regular_file
--   Update/Store          crates/abora-update/src/store.rs: UpdateStore, one function a method; a
--                         store is a value, a method returns the new one with its result
--   Config                crates/abora-config/src/lib.rs: parse_clock, parse_duration, the sections
--                         (Settings), Config::validate (Validate), Config::load (Load) and the
--                         derived equalities (Equality)
--   Config/Schedule       crates/abora-config/src/schedule.rs: in_window, permissions, check_is_due
--   Log                   crates/abora-log/src/lib.rs: Level, the threshold of Logger, and in Time
--                         utc_rfc3339_millis
--   Helper                services/abora-apply/src/main.rs: process and run; the early returns of
--                         process are a chain of functions, each named for what has been passed; Start
--                         has parse_args and load_config
--   Aborad/Tokens         services/aborad/src/tokens.rs: the token file, find, ct_eq; the client's
--                         sha256_hex of cli/abora/src/main.rs
--   Aborad/Auth           services/aborad/src/auth.rs: Permission, authorize, into_denial
--   Aborad/Server         services/aborad/src/server.rs: the permission of each route (build), the
--                         middleware authorize (enforce), bearer_value and the request ids
--   Aborad/State          services/aborad/src/state.rs: request_apply and ingest_apply_result; the state
--                         is the store and the list of the last check
--   Aborad/Updates        services/aborad/src/state.rs: refresh, response, health, and the rest of the
--                         state that they need
--   Aborad/Apply          services/aborad/src/handlers.rs: apply_updates
--   Aborad/Queries        services/aborad/src/handlers.rs: parse_service_query, services, service_detail
--   Aborad/Scheduler      services/aborad/src/scheduler.rs: one turn of the loop in run, whose input is
--                         what the turn reads, in order
--   Aborad/Reload         services/aborad/src/reload.rs: reload and what it calls, on the configuration,
--                         the logger and the tokens of AppState
--   Aborad/Startup        services/aborad/src/main.rs: parse_args, resolve_config, and the checks of run
--   Aborad/Watch          services/aborad/src/main.rs: a tick of the watch in signal_and_watch_loop
--   Services              crates/abora-services/src/lib.rs: unit names and queries; Services/Systemd is
--                         linux.rs, which reads the output of systemctl
--   Sysinfo               crates/abora-sysinfo/src/linux.rs: memory and os-release; lib.rs: Architecture
--   Api                   crates/abora-api/src/lib.rs: ErrorCode, the error envelope, and the responses
--
-- A text is the list of its Unicode scalar values; where the code counts bytes, len counts the bytes
-- of the UTF-8 encoding. A Duration is its nanoseconds. Products of machine integers keep their
-- wrap-around. A panic, where the code has one, is a value of the error type. The loops of the code
-- run over lists, so every function is total; only the printing of a number counts its steps, and one
-- more than the number is enough for its digits.
--
-- Outside, and so parameters: JSON, TOML, SHA-256, the file system, running commands, the clock, and
-- whether a text is a socket address. The helper's world is an abstract type that its operations read
-- and change; commands and file writes are also recorded in order. A map that the code only fills and
-- looks up is a list of pairs; where its order could matter, the order is an argument. Not modelled:
-- the tables of other programs in the configuration, log output, HTTP itself, signals, the command line
-- client but for the hash it prints, the boot splash, the processor part of the system information,
-- and everything that is not Rust.
pub mod Common
pub mod Core
pub mod Services
pub mod Sysinfo
pub mod Update
pub mod Config
pub mod Helper
pub mod Log
pub mod Api
pub mod Aborad
