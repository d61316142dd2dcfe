-- ===== src/Execution/Journal/History.antt =====
-- The journal as bytes: `_frame`, the lines that `readline` gives, and `_read_history` of
-- app/target_execution_journal.py. JSON and hashing are the parameter `Codec`.
pub mod Lines
pub mod Soundness
pub mod Reading
use anime_db.Base.{
  ℕ, zero, suc, ◌+◌, ◌-◌, ◌≤◌, String, ◌≡◌, Bool, true, false, not, ◌&&◌, ◌||◌, Option, none, some,
  List, [], ◌∷◌, ◌++◌, length, last_is, list_eq, all, Result, ok, err, ◌>>=◌, ◌>>◌, raise_if,
  if◌then◌else◌, ◌==◌, nat_eq, ltb, leb, String_eq, option_eq,
}
use anime_db.Execution.Platform.{Platform}
use anime_db.Execution.Manifest.{ExecutionManifest, JournalEntry}
use anime_db.Execution.Manifest.Validate.{Checked, validate_manifest}
use anime_db.Execution.Journal.{post_init, validate_entry}
use anime_db.Execution.Journal.Lifecycle.{complete_with}

-- The object of a frame without its checksum. `other` is an object with any other fields, of which
-- only the sequence number counts.
pub data Body : Type 0 where
  header :
      (sequence : ℕ) (schema : String) (version : ℕ) (manifest_id manifest_sha256 : String) → Body
  event : (sequence : ℕ) (previous_sha256 : String) (entry : JournalEntry) → Body
  other : (sequence : Option ℕ) → Body

abbrev pub sequence_of : Body → Option ℕ
sequence_of (header s _ _ _ _) = some s
sequence_of (event s _ _) = some s
sequence_of (other s) = s

pub record Codec : Type 0 where
  -- `_digest(body)`
  pub body_digest : Body → String
  -- `_canonical({**body, 'sha256': digest})` as UTF-8
  pub dumps : Body → String → List ℕ
  -- a strict load of the line; `none` where it raises or gives no object
  pub loads : List ℕ → Option (Body × Option String)
  -- `hashlib.sha256(manifest_to_json(manifest))`
  pub manifest_sha256 : ExecutionManifest → String

-- What the program relies on: canonical JSON is one line, and loads as what was dumped.
pub record CodecLaws (codec : Codec) : Type 0 where
  pub one_line :
      (b : Body) (digest : String) → all (λ c. not (nat_eq c 10)) (codec.dumps b digest) ≡ true
  pub loads-dumps :
      (b : Body) (digest : String)
      → codec.loads (codec.dumps b digest ++ 10 ∷ []) ≡ some (b, some digest)

-- The exceptions of the module.
pub data JournalError : Type 0 where
  rejected : String → JournalError
  reconciliation_required : (entries : List JournalEntry) (header_valid : Bool) → JournalError

abbrev pub max_frame_bytes : ℕ
max_frame_bytes = 65536

-- The lines of a file, each with its newline and cut after `limit` bytes, as repeated
-- `stream.readline(limit)` gives them. `room` is what the current line has left.
unfoldable pub put_byte : ℕ → Bool → List (List ℕ) → List (List ℕ)
put_byte b true lines = (b ∷ []) ∷ lines
put_byte b false [] = (b ∷ []) ∷ []
put_byte b false (line ∷ lines) = (b ∷ line) ∷ lines

unfoldable pub lines_from : ℕ → ℕ → List ℕ → List (List ℕ)
unfolding put_byte
lines_from limit room [] = []
lines_from limit room (b ∷ bytes) =
    let ends = nat_eq b 10 || leb room 1 in
    put_byte b ends (lines_from limit (if ends then limit else room - 1) bytes)

-- The loop variables of `_read_history`; the entries stand newest first.
pub record Reader : Type 0 where
  pub entries : List JournalEntry
  pub completed : List String
  pub previous_digest : Option String
  pub sequence : ℕ

abbrev pub start : Reader
start = record { entries = []; completed = []; previous_digest = none; sequence = 0 }

module _ (pf : Platform) (codec : Codec) where
  open codec use {body_digest, dumps, loads, manifest_sha256}

  unfoldable pub header_of : ExecutionManifest → Result String Body
  header_of m = do
    validate_manifest pf m
    ok (header 0 "animedb-v6-execution-journal" 1 m.manifest_id (manifest_sha256 m))

  abbrev pub raw_of : Body → List ℕ
  raw_of body = dumps body (body_digest body) ++ 10 ∷ []

  -- `_frame`
  unfoldable pub frame : Body → Result String (List ℕ × String)
  frame body = do
    raise_if (ltb max_frame_bytes (length (raw_of body))) "journal frame exceeds maximum size"
    ok (raw_of body, body_digest body)

  abbrev pub loaded : Option (Body × Option String) → Result String (Body × Option String)
  loaded none = err "journal frame must be an object"
  loaded (some value) = ok value

  -- `_canonical(body) != _canonical(expected_header)`: canonical JSON tells two objects apart.
  abbrev pub same_header : Body → Body → Bool
  same_header (header s a v i h) (header s' a' v' i' h') =
      nat_eq s s' && (a == a' && (nat_eq v v' && (i == i' && h == h')))
  same_header _ _ = false

  -- The record behind the header.
  unfoldable pub read_event : ExecutionManifest → Reader → Body → Result String Reader
  read_event m r (event s previous entry) = do
    raise_if (not (option_eq ◌==◌ (some previous) r.previous_digest)) "journal hash chain mismatch"
    post_init entry
    validate_entry pf m r.entries r.completed entry
    ok (record {
      entries = entry ∷ r.entries;
      completed = complete_with entry r.completed;
      previous_digest = some (body_digest (event s previous entry));
      sequence = suc r.sequence;
    })
  read_event m r _ = err "unknown or missing record fields"

  -- The first record.
  unfoldable pub read_header : Body → Reader → Body → Result String Reader
  read_header expected r body = do
    raise_if (not (same_header body expected)) "journal version/manifest binding mismatch"
    ok (record r { previous_digest = some (body_digest body); sequence = suc r.sequence })

  unfoldable pub read_body : ExecutionManifest → Body → Reader → Body → Result String Reader
  unfolding read_event read_header
  read_body m expected r body =
      if nat_eq r.sequence 0 then read_header expected r body else read_event m r body

  -- The checks of one line by itself: its size, its form, its checksum and its sequence number.
  unfoldable pub decode_line : ℕ → List ℕ → Result String Body
  decode_line sequence raw = do
    raise_if (ltb max_frame_bytes (length raw) || not (last_is (nat_eq 10) raw))
        "incomplete or oversized frame"
    (body, sha256) ← loaded (loads raw)
    (canonical, digest) ← frame body
    raise_if (not (list_eq nat_eq raw canonical) || not (option_eq ◌==◌ sha256 (some digest)))
        "noncanonical frame or checksum mismatch"
    raise_if (not (option_eq nat_eq (sequence_of body) (some sequence)))
        "noncontiguous journal sequence"
    ok body

  -- The body of the loop, for one line.
  unfoldable pub read_line : ExecutionManifest → Body → Reader → List ℕ → Result String Reader
  read_line m expected r raw = do body ← decode_line r.sequence raw; read_body m expected r body

  -- The `try` around the body: whatever it raises needs reconciliation.
  abbrev pub or_reconcile : Reader → Result String Reader → Result JournalError Reader
  or_reconcile r (ok next) = ok next
  or_reconcile r (err _) = err (reconciliation_required r.entries (ltb 0 r.sequence))

  unfoldable pub read_lines :
      ExecutionManifest → Body → Reader → List (List ℕ) → Result JournalError Reader
  read_lines m expected r [] = ok r
  read_lines m expected r (raw ∷ rest) = do
    next ← or_reconcile r (read_line m expected r raw)
    read_lines m expected next rest

  abbrev pub has_header : Reader → Result JournalError (List JournalEntry)
  has_header r = elim r.previous_digest [
    | none ↦ err (reconciliation_required [] false)
    | some _ ↦ ok r.entries
  ]

  abbrev pub or_reject {ℓ} : {A : Type ℓ} → Result String A → Result JournalError A
  or_reject (ok a) = ok a
  or_reject (err message) = err (rejected message)

  unfoldable pub journal_lines : List ℕ → List (List ℕ)
  unfolding lines_from
  journal_lines content = lines_from (suc max_frame_bytes) (suc max_frame_bytes) content

  -- The loop, behind the computation of the expected header.
  unfoldable pub read_bound :
      ExecutionManifest → Body → List ℕ → Result JournalError (List JournalEntry)
  unfolding read_lines journal_lines
  read_bound m expected content = do
    r ← read_lines m expected start (journal_lines content)
    has_header r

  unfoldable pub read_history : ExecutionManifest → List ℕ → Result JournalError (List JournalEntry)
  unfolding read_bound header_of
  read_history m content = do expected ← or_reject (header_of m); read_bound m expected content
