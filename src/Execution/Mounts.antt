-- ===== src/Execution/Mounts.antt =====
-- `_check_mounts` and `_check_production_mount` of app/target_execution_mounts.py. An absolute path is
-- the list of its parts.
pub mod Places
pub mod Aliases
mod Examples
use anime_db.Base.{
  ℕ, zero, suc, ◌+◌, String, ◌≡◌, Bool, true, false, not, ◌&&◌, ◌||◌, Option, none, some, List, [],
  ◌∷◌, ◌++◌, length, any, elem, is_some, Result, ok, err, ◌>>=◌, ◌>>◌, raise_if, for_each,
  if◌then◌else◌, ◌==◌, nat_eq, ltb, leb, String_eq, ℕ_eq, List_eq,
}
use anime_db.Execution.Mounts.Places.{Place, within, strip, list_filter}

pub record MountRecord : Type 0 where
  pub mount_id : ℕ
  pub parent_id : ℕ
  pub device : ℕ × ℕ
  pub fs_root : Place
  pub point : Place
  pub fstype : String
  pub source : String
  pub options : List String

-- What the kernel says of an open directory: its mount, its device, and whether it is read-only.
pub record Descriptor : Type 0 where
  pub mount_id : ℕ
  pub device : ℕ × ℕ
  pub read_only : Bool

abbrev pub same_device : ℕ × ℕ → ℕ × ℕ → Bool
same_device (a, b) (c, d) = nat_eq a c && nat_eq b d

-- `current.fs_root / root.relative_to(current.point)`, once the root is known to be below the point
abbrev pub storage_at : MountRecord → Option Place → Place
storage_at m none = m.fs_root
storage_at m (some below) = m.fs_root ++ below

abbrev pub storage_of : MountRecord → Place → Place
storage_of m root = storage_at m (strip m.point root)

-- `if storage.is_relative_to(other.fs_root): ... elif other.fs_root.is_relative_to(storage): ...`
abbrev pub check_overlap : Place → Place → MountRecord → Option Place → Result String (Unit {0})
check_overlap root storage other (some below) =
    raise_if (not ((other.point ++ below) == root)) "bind mount aliases execution root or ancestor"
check_overlap root storage other none =
    raise_if (within storage other.fs_root) "bind mount aliases execution subtree"

abbrev pub check_alias : Place → Place → MountRecord → Result String (Unit {0})
check_alias root storage other = check_overlap root storage other (strip other.fs_root storage)

-- The body of the loop over the mounts in `_check_mounts`.
abbrev pub check_other : Bool → Place → Place → MountRecord → MountRecord → Result String (Unit {0})
check_other allow_root_mount root storage current other =
    if allow_root_mount && nat_eq other.mount_id current.mount_id
    then ok tt
    else if within root other.point
    then err "mount at or inside execution root is forbidden"
    else if nat_eq other.mount_id current.mount_id || not (same_device other.device current.device)
    then ok tt
    else check_alias root storage other

abbrev pub check_current :
    Bool → Place → Descriptor → List MountRecord → MountRecord → Result String MountRecord
check_current allow_root_mount root fd mounts current = do
  raise_if (not (same_device current.device fd.device) || not (within current.point root))
      "mount and descriptor binding disagree"
  raise_if (not (elem current.fstype ("ext4" ∷ "btrfs" ∷ "overlay" ∷ [])))
      "filesystem not allowed for durable scratch rename"
  raise_if (not (elem "rw" current.options) || fd.read_only) "execution mount is read-only"
  for_each mounts (check_other allow_root_mount root (storage_of current root) current)
  ok current

abbrev pub the_only : String → List MountRecord → Result String MountRecord
the_only message (m ∷ []) = ok m
the_only message _ = err message

-- `_check_mounts`
unfoldable pub check_mounts :
    Bool → Place → Descriptor → List MountRecord → Result String MountRecord
check_mounts allow_root_mount root fd mounts = do
  current ←
      the_only "descriptor mount missing from mountinfo"
        (list_filter (λ m. nat_eq m.mount_id fd.mount_id) mounts)
  check_current allow_root_mount root fd mounts current

-- Production: the deepest mount that covers the library.
abbrev pub deepest : List MountRecord → ℕ
deepest [] = 0
deepest (m ∷ rest) =
    let below = deepest rest in if leb below (length m.point) then length m.point else below

-- `{m.mount_id: m for m in mounts}.get(id)`: the last one counts.
abbrev pub mount_with : ℕ → List MountRecord → Option MountRecord
mount_with id [] = none
mount_with id (m ∷ rest) = elim (mount_with id rest) [
  | some later ↦ some later
  | none ↦ if nat_eq m.mount_id id then some m else none
]

abbrev strictly_within : Place → Place → Bool
strictly_within base path = within base path && not (base == path)

-- One step of the walk up the ancestry: the next mount, or none at the top.
abbrev pub parent_step : MountRecord → Option MountRecord → Result String (Option MountRecord)
parent_step cursor none = ok none
parent_step cursor (some parent) =
    if nat_eq parent.mount_id cursor.mount_id && nat_eq (length cursor.point) 0
    then ok none
    else if not (parent.point == cursor.point) && not (strictly_within parent.point cursor.point)
    then err "production mount parent binding differs"
    else ok (some parent)

-- The identities of the ancestors. Fuel: each round meets a new mount identity.
unfoldable pub ancestry :
    ℕ → List MountRecord → List ℕ → Option MountRecord → Result String (List ℕ)
ancestry fuel mounts ancestors none = ok ancestors
ancestry zero mounts ancestors (some cursor) = err "cyclic production mount ancestry"
ancestry (suc fuel) mounts ancestors (some cursor) = do
  raise_if (elem cursor.mount_id ancestors) "cyclic production mount ancestry"
  next ← parent_step cursor (mount_with cursor.parent_id mounts)
  ancestry fuel mounts (cursor.mount_id ∷ ancestors) next

-- The checks of the held descriptor, where there is one.
abbrev pub check_descriptor : MountRecord → Bool → Option Descriptor → Result String (Unit {0})
check_descriptor current writable none =
    raise_if (writable && not (elem "rw" current.options))
      "production execution requires a writable media mount"
check_descriptor current writable (some fd) = do
  raise_if (not (nat_eq fd.mount_id current.mount_id) || not (same_device current.device fd.device))
      "production descriptor mount/device differs"
  raise_if (writable && (not (elem "rw" current.options) || fd.read_only))
      "production execution requires a writable media mount"

module _ (casefold : String → String) where
  -- `other` may show the same storage: the same share, or the same device.
  abbrev pub shared : MountRecord → MountRecord → Bool
  shared current other =
      (other.fstype == "cifs" && casefold other.source == casefold current.source)
      || same_device other.device current.device

  abbrev pub check_production_other :
      Place → Place → MountRecord → MountRecord → Result String (Unit {0})
  check_production_other root storage current other =
      if nat_eq other.mount_id current.mount_id
      then ok tt
      else if within root other.point
      then err "mount at or inside production library is forbidden"
      else if not (shared current other)
      then ok tt
      else check_alias root storage other

  abbrev pub check_visible :
      String
      → Place
      → Bool
      → Place
      → Option Descriptor
      → List MountRecord
      → MountRecord
      → Result String MountRecord
  check_visible share share_root writable root fd mounts current = do
    ancestors ← ancestry (suc (length mounts)) mounts [] (some current)
    raise_if
        (any (λ m. strictly_within m.point current.point && not (elem m.mount_id ancestors)) mounts)
        "production library is hidden by an ancestor mount"
    raise_if
        (not (current.fstype == "cifs")
          || (not (casefold current.source == casefold share)
              || not (storage_of current root == share_root)))
        "production media server/share/subtree differs"
    check_descriptor current writable fd
    for_each mounts (check_production_other root share_root current)
    ok current

  -- `_check_production_mount`; `share_valid` is that `_validate_share` returns.
  unfoldable pub check_production_mount :
      Bool
      → String
      → Place
      → Bool
      → Place
      → Option Descriptor
      → List MountRecord
      → Result String MountRecord
  unfolding ancestry
  check_production_mount share_valid share share_root writable root fd mounts = do
    raise_if (not share_valid) "explicit canonical SMB server/share and filesystem subtree required"
    let covering = list_filter (λ m. within m.point root) mounts
    raise_if (nat_eq (length covering) 0) "production media mount unavailable"
    current ←
        the_only "ambiguous production media mount"
          (list_filter (λ m. nat_eq (length m.point) (deepest covering)) covering)
    check_visible share share_root writable root fd mounts current
