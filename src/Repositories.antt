-- ===== src/Repositories.antt =====
-- src/canterlot/repositories/beanie/, one module for each repository, over the driver.
pub mod Memberships
pub mod Clubs
pub mod Users
pub mod Invites
pub mod Codes
pub mod Rounds
pub mod Catalog
pub mod AllOrNothing
