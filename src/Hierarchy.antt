-- ===== src/Hierarchy.antt =====
-- The structure of a catalogue: where a title stands in its collection.
pub mod Authority
pub mod Seasons
mod Examples
