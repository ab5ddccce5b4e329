-- ===== src/Utils.antt =====
-- src/canterlot/utils/ and src/canterlot/pagination.py
pub mod Slugs
pub mod Security
