-- ===== src/Driver.antt =====
-- internal/driver: the CSI services.
pub mod Csi
pub mod Capability
pub mod Capacity
pub mod Request
pub mod Controller
pub mod Node
pub mod Identity
pub mod Services
