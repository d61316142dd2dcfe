-- ===== src/Naming/Types.antt =====
-- The types of supplementary content.

-- `SupplementaryType` of app/canonical_filename.py, the types that canonical names are read for
pub data SupplementaryType : Type 0 where
  ova special preview op ed ncop nced : SupplementaryType

-- The keys of `_SUPPLEMENTARY_LABELS` of app/physical_naming_formatters.py, without the recap
pub data ContentType : Type 0 where
  canonical : SupplementaryType → ContentType
  film bonus cm menu : ContentType
