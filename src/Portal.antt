-- ===== src/Portal.antt =====
-- The portals' libraries: apps/management-portal/src/lib and apps/dapp-portal/src/lib.
pub mod Client
pub mod Session
pub mod Form
pub mod Scanner
pub mod Transfer
