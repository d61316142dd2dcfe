-- ===== src/Execution/Preflight/Namespace.antt =====
-- The target namespace in `preflight_execution_manifest`: occupied targets, parents, and moves onto
-- each other's sources.
use anime_db.Base.{
  ℕ, zero, suc, String, Bool, false, not, ◌&&◌, ◌||◌, Option, none, some, List, [], ◌∷◌, ◌++◌,
  length, elem, if◌then◌else◌, ◌==◌, String_eq, is_some,
}
use anime_db.Execution.Paths.{concat, relative_locator_safe, parents}
use anime_db.Execution.Platform.{Platform}
use anime_db.Execution.Manifest.{ManifestAction, ManifestPayload}
use anime_db.Execution.Manifest.Validate.{moves, recycled}
use anime_db.Execution.Preflight.Inputs.{Kind, Kind_eq, Entry, Snapshot, when, blocks_of, inventory}

-- A dict of texts: a key keeps its place and takes the last value.
abbrev pub Moves : Type 0
Moves = List (String × String)

abbrev pub put : String → String → Moves → Moves
put source target [] = (source, target) ∷ []
put source target ((s, t) ∷ rest) =
    let later = put source target rest in if s == source then (s, target) ∷ rest else (s, t) ∷ later

abbrev pub fill : Moves → List ManifestAction → Moves
fill known [] = known
fill known (a ∷ rest) = fill (if moves a then put a.source a.target known else known) rest

-- `{a.source: a.target for a in actions if a.action != 'KEEP'}`
unfoldable pub moves_of : List ManifestAction → Moves
moves_of actions = fill [] actions

abbrev pub target_of : Moves → String → Option String
target_of [] source = none
target_of ((s, t) ∷ rest) source = if s == source then some t else target_of rest source

abbrev pub next_of : String → Option String → String
next_of node none = node
next_of node (some next) = next

-- The walk along the moves from `node`: the sources seen, newest first, and where it ends.
unfoldable pub follow : ℕ → Moves → List String → String → List String × String
follow zero known seen node = (seen, node)
follow (suc fuel) known seen node =
    let rest = follow fuel known (node ∷ seen) (next_of node (target_of known node)) in
    if elem node seen || not (is_some (target_of known node)) then (seen, node) else rest

-- As many steps as there are sources, and one to meet the first of them again.
unfoldable pub walk : Moves → String → List String × String
unfolding follow
walk known source = follow (suc (length known)) known [] source

unfoldable pub staging_blocker : Moves → String → String
unfolding walk
staging_blocker known source =
    let (seen, node) = walk known source in
    if elem node seen
    then concat "move_cycle:" source
    else concat "occupied_by_source_requires_staging:" source

-- The target of this move is in the inventory as another move's source.
abbrev pub taken : Snapshot → List String → ManifestAction → Bool
taken snapshot sources a =
    (moves a && (relative_locator_safe a.source && relative_locator_safe a.target))
    && elim (inventory snapshot a.target) [
      | none ↦ false
      | some entry ↦ not (Kind_eq entry.kind Kind.symlink) && elem a.target sources
    ]

abbrev pub sources_of : List ManifestAction → List String
sources_of [] = []
sources_of (a ∷ rest) = if moves a then a.source ∷ sources_of rest else sources_of rest

abbrev pub parent_blockers : Snapshot → List String → String → List String
parent_blockers snapshot directories parent = elim (inventory snapshot parent) [
  | some entry ↦
      when (not (Kind_eq entry.kind Kind.directory)) (concat "target_parent_not_directory:" parent)
  | none ↦ when (not (elem parent directories)) (concat "unplanned_target_directory:" parent)
]

-- What is at the target of a move.
abbrev pub target_entry : List String → ManifestAction → Option Entry → List String
target_entry sources a none = []
target_entry sources a (some entry) =
    if not (moves a)
    then []
    else if Kind_eq entry.kind Kind.symlink
    then concat "target_symlink:" a.target ∷ []
    else when (not (elem a.target sources)) (concat "target_occupied:" a.target)

module _ (pf : Platform) where
  -- The body of the loop over the actions.
  unfoldable pub target_blockers : ManifestPayload → Snapshot → ManifestAction → List String
  target_blockers p snapshot a =
      if not (relative_locator_safe a.source) || not (relative_locator_safe a.target)
      then concat "unsafe_locator:" a.source ∷ []
      else when (recycled pf a.target) (concat "system_excluded_target:" a.target)
        ++ (target_entry (sources_of p.actions) a (inventory snapshot a.target)
            ++ blocks_of (parent_blockers snapshot p.directories) (parents a.target))

-- `if occupied:` and its loop; a target that two moves share is met once in the code, and its
-- blocker, of which a set is made, once or twice here.
unfoldable pub occupied_blockers : ManifestPayload → Snapshot → List String
unfolding moves_of staging_blocker
occupied_blockers p snapshot =
    blocks_of
      (λ a.
        when (taken snapshot (sources_of p.actions) a)
          (staging_blocker (moves_of p.actions) a.target))
      p.actions
