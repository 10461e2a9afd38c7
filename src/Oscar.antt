-- ===== src/Oscar.antt =====
-- The library oscar/ of the repository: the FLAP/SNAC/TLV wire format.
pub mod Endian
pub mod Memory
pub mod Tlv
pub mod Proto
pub mod Snac
pub mod Flap
