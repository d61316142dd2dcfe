-- ===== src/Execution/Platform.antt =====
-- What the execution code takes from Python's library and the host, as parameters: hashing, Unicode
-- folding, time stamps and the check of the library root.
use anime_db.Base.{ℕ, String, Bool, List}
use anime_db.Execution.Manifest.{ManifestPayload}

-- A value inside a tuple that is hashed.
pub data Atom : Type 0 where
  num : ℕ → Atom
  text : String → Atom

pub record Platform : Type 0 where
  -- `_digest` of a tuple of texts and numbers: SHA-256 of its canonical JSON
  pub tuple_digest : List Atom → String
  -- `_digest(asdict(p))`
  pub payload_digest : ManifestPayload → String
  -- `collision_keys(part).fold_key`, and `str.casefold`
  pub fold_key : String → String
  pub casefold : String → String
  -- `unicodedata.normalize('NFC', text)`
  pub nfc : String → String
  -- `_iso` accepts the text as a UTC time stamp
  pub is_iso : String → Bool
  -- `Path(root).is_absolute()`, and `validate_inventory_root(root)` returns
  pub is_absolute : String → Bool
  pub inventory_root_valid : String → Bool
  -- `validate_windows_root(root)` returns
  pub windows_root_valid : String → Bool
