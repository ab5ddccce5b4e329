-- ===== src/Hoodie.antt =====
-- src/canterlot/hoodie/, the layer between the repositories and the driver.
pub mod Transactions
