-- ===== src/Services/Auth.antt =====
-- src/canterlot/services/auth.py. The definitions are in the child modules: `Sessions` registers and
-- logs in, `Passwords` changes passwords, `Providers` has the accounts of other services. The
-- remaining modules prove.
pub mod Sessions
pub mod Passwords
pub mod Providers
pub mod Rotation
pub mod Ledger
pub mod Replay
pub mod Renewal
pub mod Ways
pub mod Linking
