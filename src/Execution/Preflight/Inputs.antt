-- ===== src/Execution/Preflight/Inputs.antt =====
-- What a preflight reads: the inventory, the fresh plan and the answers of the host, and the lists
-- of blockers that it collects (app/target_execution_manifest.py, app/target_planner_types.py).
use anime_db.Base.{
  ℕ, String, Bool, true, false, ◌&&◌, Option, none, some, List, [], ◌∷◌, ◌++◌, any, Result,
  if◌then◌else◌, ◌==◌, nat_eq, String_eq,
}
use Prim.Native.Char.{code}
use anime_db.Execution.Paths.{str_lt}
use anime_db.Execution.Manifest.{
  ℤ, DatabaseFingerprint, GraphReport, PayloadType, ExecutionManifest,
}

pub data Kind : Type 0 where
  regular directory symlink special system_excluded inaccessible : Kind

abbrev pub Kind_eq : Kind → Kind → Bool
Kind_eq Kind.regular Kind.regular = true
Kind_eq Kind.directory Kind.directory = true
Kind_eq Kind.symlink Kind.symlink = true
Kind_eq Kind.special Kind.special = true
Kind_eq Kind.system_excluded Kind.system_excluded = true
Kind_eq Kind.inaccessible Kind.inaccessible = true
Kind_eq _ _ = false

-- `FilesystemEntry` and `FilesystemSnapshot`
pub record Entry : Type 0 where
  pub relative_path : String
  pub kind : Kind
  pub size : Option ℤ
  pub mtime_ns : Option ℤ

pub record Snapshot : Type 0 where
  pub root : String
  pub entries : List Entry

-- `{e.relative_path: e for e in snapshot.entries}.get(path)`: the last entry of a path counts.
abbrev pub entry_at : String → List Entry → Option Entry
entry_at path [] = none
entry_at path (e ∷ rest) = elim (entry_at path rest) [
  | some later ↦ some later
  | none ↦ if e.relative_path == path then some e else none
]

abbrev pub inventory : Snapshot → String → Option Entry
inventory snapshot path = entry_at path snapshot.entries

-- The two hashes of a fresh plan that the preflight reads.
pub record FreshPlan : Type 0 where
  pub plan_hash : String
  pub filesystem_hash : Option String

-- The database backup that the operator names, as the host shows it. `fingerprint` is none where it
-- cannot be read.
pub record Backup : Type 0 where
  pub inside_repository_or_library : Bool
  pub regular : Bool
  pub nlink : ℕ
  pub fingerprint : Option DatabaseFingerprint

pub record Outside : Type 0 where
  -- the first time stamp is not before the second
  pub not_before : String → String → Bool
  pub backup : String → Backup
  -- `evaluate_windows_path_budget` of the target below the root is within its limit
  pub within_budget : String → String → Bool
  -- `_canonical(asdict(graph))`
  pub graph_text : GraphReport → String
  -- `plan_library`, with the name of the exception that it raises
  pub plan_library : Snapshot → Option String → Result String FreshPlan
  -- `build_execution_manifest(...).payload == p`
  pub reference_matches : Snapshot → FreshPlan → ExecutionManifest → Result String Bool

abbrev pub fingerprint_eq : DatabaseFingerprint → DatabaseFingerprint → Bool
fingerprint_eq a b =
    a.sha256 == b.sha256
    && (nat_eq a.size b.size
        && (nat_eq a.mtime_ns b.mtime_ns && nat_eq a.user_version b.user_version))

-- `if test: blockers.append(text)`
abbrev pub when : Bool → String → List String
when true text = text ∷ []
when false text = []

-- The blockers that the loop over `xs` appends.
abbrev pub blocks_of {ℓ} : {A : Type ℓ} → (A → List String) → List A → List String
blocks_of f [] = []
blocks_of f (x ∷ xs) = f x ++ blocks_of f xs

-- `sorted(set(texts))`
abbrev insert_text : String → List String → List String
insert_text x [] = x ∷ []
insert_text x (y ∷ rest) =
    let later = insert_text x rest in
    if x == y then y ∷ rest else if str_lt x y then x ∷ y ∷ rest else y ∷ later

unfoldable pub sorted_set : List String → List String
sorted_set [] = []
sorted_set (x ∷ xs) = insert_text x (sorted_set xs)

-- `text.startswith(prefix)`
unfoldable pub starts_with : String → String → Bool
starts_with String.[] text = true
starts_with (String.◌∷◌ c prefix) String.[] = false
starts_with (String.◌∷◌ c prefix) (String.◌∷◌ d text) =
    nat_eq (code c) (code d) && starts_with prefix text

abbrev pub starts_with_any : List String → String → Bool
starts_with_any prefixes text = any (λ prefix. starts_with prefix text) prefixes

-- The sealed Windows root.
abbrev pub root_of : PayloadType → Option String
root_of PayloadType.legacy = none
root_of (PayloadType.current root) = root
