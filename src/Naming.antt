-- ===== src/Naming.antt =====
-- Canonical file names: app/physical_naming_formatters.py prints them and app/canonical_filename.py
-- reads them.
pub mod Text
pub mod Numbers
pub mod Types
pub mod Canonical
pub mod Formatters
pub mod Suffixes
pub mod Extensions
pub mod RoundTrip
pub mod Ambiguous
mod Examples
