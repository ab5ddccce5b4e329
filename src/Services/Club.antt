-- ===== src/Services/Club.antt =====
-- src/canterlot/services/club.py
pub mod Roles
pub mod Admission
pub mod Views
pub mod Moderation
pub mod Ownership
pub mod Rules
pub mod Creation
pub mod Customizing
pub mod Settings
pub mod Founding
pub mod Removal
pub mod RoleChange
pub mod Leaving
pub mod Review
pub mod Entering
pub mod Transfer
pub mod Reclaim
pub mod Dissolution
pub mod Reach
pub mod HandBack
pub mod Viewing
