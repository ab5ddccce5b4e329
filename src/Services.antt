-- ===== src/Services.antt =====
-- src/canterlot/services/, one module for each service.
pub mod Club
pub mod Invite
pub mod Verification
pub mod Round
pub mod Auth
pub mod Catalog
pub mod Dispatch
pub mod User
