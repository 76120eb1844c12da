-- ===== src/Naming/RoundTrip.antt =====
-- naming/element_map.cpp: what deserialize reads of the bytes that serialize wrote.
pub mod Fields
pub mod Entries
pub mod Children
pub mod Trees
pub mod Lookups
