-- ===== src/UseCases.antt =====
-- src/canterlot/use_cases/, one module for each use case.
pub mod AcceptInvite
