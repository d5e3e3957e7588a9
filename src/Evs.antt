-- ===== src/Evs.antt =====
-- internal/evs: the client of the cloud's volume and compute services.
pub mod Types
pub mod Classify
pub mod Sanitize
pub mod Transport
pub mod Client
pub mod Cloud
pub mod Volume
pub mod Listing
pub mod Delete
pub mod Effects
pub mod Attachment
