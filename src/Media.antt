-- ===== src/Media.antt =====
-- Videos of the catalogue: duplicate copies (app/numbering.py) and media parts (app/media_parts.py).
pub mod Duplicates
pub mod Parts
mod Examples
