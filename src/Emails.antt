-- ===== src/Emails.antt =====
-- src/canterlot/emails/
pub mod Policy
