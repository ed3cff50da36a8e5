-- ===== src/Aborad.antt =====
-- services/aborad: the daemon. Tokens (tokens.rs), the authorization decision (auth.rs), its
-- enforcement on every route with the request ids (server.rs), the update state (state.rs: State,
-- Updates), the handlers (handlers.rs: Apply, Queries), the loop of checks (scheduler.rs), reloads
-- (reload.rs) and start-up (main.rs).
pub mod Tokens
pub mod Auth
pub mod Server
pub mod State
pub mod Apply
pub mod Updates
pub mod Scheduler
pub mod Queries
pub mod Reload
pub mod Startup
pub mod Watch
mod Tests
