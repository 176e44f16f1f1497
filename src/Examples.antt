-- ===== src/Examples.antt =====
-- The theorems at concrete inputs, and runs of the definitions: src/db/, src/api/, src/limits.rs,
-- src/pairing.rs, src/auth.rs, src/connections.rs, src/state.rs, src/config.rs, src/updates.rs and
-- src/main.rs.
mod Mail
mod Tries
mod Relay
mod SignIn
mod Codes
mod Requests
mod Settings
