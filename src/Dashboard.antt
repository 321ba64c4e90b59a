-- ===== src/Dashboard.antt =====
-- dashboard: the operators' side of the program.
pub mod Rbac
pub mod Login
pub mod Beneficiaries
