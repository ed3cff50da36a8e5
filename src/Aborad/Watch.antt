-- ===== src/Aborad/Watch.antt =====
-- services/aborad/src/main.rs: the ticks of signal_and_watch_loop, which reload when a watched file
-- changes. The fingerprints of files are a parameter. The signals, in the same loop, are left out.
pub mod Settles
use abora_framework.Common.{
  ℕ, ◌==◌, Bool, true, false, not, ◌&&◌, ◌||◌, Option, none, some, Text, if◌then◌else◌,
}
use abora_framework.Aborad.Reload.{ReloadSource, file_path, AppState, Outside, reload}

-- the modification time and the length of a file, where it can be read
abbrev pub Fingerprint : Type 0
Fingerprint = Option (ℕ × ℕ)

abbrev pub fingerprint_eq : Fingerprint → Fingerprint → Bool
fingerprint_eq none none = true
fingerprint_eq (some (t, n)) (some (u, m)) = t == u && n == m
fingerprint_eq none (some p) = false
fingerprint_eq (some p) none = false

-- `now.or(seen)`
abbrev pub or_seen : Fingerprint → Fingerprint → Fingerprint
or_seen none seen = seen
or_seen (some p) seen = some p

-- the fingerprint of a file, if there is one to watch, where `disk` gives those of all paths
abbrev pub fingerprint_of : (Text → Fingerprint) → Option Text → Fingerprint
fingerprint_of disk none = none
fingerprint_of disk (some path) = disk path

abbrev pub fingerprint_of_token : (Text → Fingerprint) → AppState → Fingerprint
fingerprint_of_token disk s = fingerprint_of disk s.config.security.token_file

-- the daemon's state, and what the watch has seen
pub record WatchState : Type 0 where
  pub state : AppState
  pub config_seen : Fingerprint
  pub token_seen : Fingerprint

-- One tick of the watch, with whether it reloads: `disk` and `o` are what the tick finds.
unfoldable pub watch_tick :
    (Text → Bool) → Outside → (Text → Fingerprint) → ReloadSource → WatchState → Bool × WatchState
watch_tick is_socket_addr o disk source w =
    let config_now = fingerprint_of disk (file_path source) in
    let token_now = fingerprint_of_token disk w.state in
    let changed =
      not (fingerprint_eq config_now w.config_seen)
      || not (fingerprint_eq token_now w.token_seen) in
    (
      changed,
      record {
        state = if changed then reload is_socket_addr o source w.state else w.state;
        config_seen = or_seen config_now w.config_seen;
        token_seen = or_seen token_now w.token_seen;
      },
    )
