-- ===== src/Tests.antt =====
-- A small database, and the theorems at work on it.
mod Samples
mod Clubs
mod Invites
mod Codes
mod Rounds
mod Accounts
