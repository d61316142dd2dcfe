-- ===== src/Execution/Manifest/Graph.antt =====
-- `_graph_report` of app/target_execution_manifest.py: chains, cycles and swaps of the moves, and the
-- collisions between sources and targets.
use anime_db.Base.{
  ℕ, zero, suc, ◌+◌, String, Bool, true, false, not, ◌&&◌, ◌||◌, List, [], ◌∷◌, ◌++◌, length, elem,
  any, is_some, if◌then◌else◌, ◌==◌, nat_eq, String_eq,
}
use anime_db.Execution.Paths.{parents}
use anime_db.Execution.Platform.{Platform}
use anime_db.Execution.Manifest.{ℤ, ManifestAction, GraphReport}
use anime_db.Execution.Preflight.Inputs.{Kind, Kind_eq, Snapshot, Entry}
use anime_db.Execution.Preflight.Namespace.{Moves, moves_of, target_of, next_of}

-- `{source: target for source, target in moving.items() if target in moving}`
abbrev pub chains_in : Moves → Moves → Moves
chains_in moving [] = []
chains_in moving ((s, t) ∷ rest) =
    let others = chains_in moving rest in
    if is_some (target_of moving t) then (s, t) ∷ others else others

-- The inner loop: the path, newest first, and where it stops.
unfoldable pub trace : ℕ → Moves → List String → List String → String → List String × String
trace zero chains seen path node = (path, node)
trace (suc fuel) chains seen path node =
    let rest = trace fuel chains seen (node ∷ path) (next_of node (target_of chains node)) in
    if not (is_some (target_of chains node)) || (elem node seen || elem node path)
    then (path, node)
    else rest

-- The place of a node in the path, from the newest: `len(path) - positions[node]` is one more.
abbrev pub back : String → List String → ℕ
back node [] = 0
back node (x ∷ path) = let deeper = suc (back node path) in if x == node then 0 else deeper

pub record Tally : Type 0 where
  pub cycles : ℕ
  pub swaps : ℕ
  pub seen : List String

abbrev pub unit_if : Bool → ℕ
unit_if true = 1
unit_if false = 0

abbrev pub count_path : Tally → List String × String → Tally
count_path tally (path, node) = record {
  cycles = tally.cycles + unit_if (elem node path);
  swaps = tally.swaps + unit_if (elem node path && nat_eq (back node path) 1);
  seen = path ++ tally.seen;
}

abbrev pub count_start : Moves → Tally → String → Tally
count_start chains tally start =
    if elem start tally.seen
    then tally
    else count_path tally (trace (suc (length chains)) chains tally.seen [] start)

-- The loop over the starts.
unfoldable pub count_cycles : Moves → Tally → Moves → Tally
unfolding trace
count_cycles chains tally [] = tally
count_cycles chains tally ((start, _) ∷ rest) =
    count_cycles chains (count_start chains tally start) rest

abbrev pub count_moves : (String × String → Bool) → Moves → ℕ
count_moves test [] = 0
count_moves test (move ∷ rest) = unit_if (test move) + count_moves test rest

-- `e.relative_path for e in snapshot.entries if e.kind not in {...}`
abbrev pub occupies : String → List Entry → Bool
occupies path entries =
    any
      (λ e.
        e.relative_path == path
        && (not (Kind_eq e.kind Kind.system_excluded) && not (Kind_eq e.kind Kind.inaccessible)))
      entries

abbrev pub parents_in : (String × String → String) → Moves → List String
parents_in end [] = []
parents_in end (move ∷ rest) = parents (end move) ++ parents_in end rest

module _ (pf : Platform) where
  -- `_graph_report`
  unfoldable pub graph_report : List ManifestAction → Snapshot → GraphReport
  unfolding moves_of count_cycles
  graph_report actions snapshot =
      let moving = moves_of actions in
      let chains = chains_in moving moving in
      let tally = count_cycles chains (record { cycles = 0; swaps = 0; seen = [] }) chains in
      let source_parents = parents_in (λ m. m.0) moving in
      let target_parents = parents_in (λ m. m.1) moving in
      record {
        source_target_chains = ℤ.pos (length chains);
        cycles = ℤ.pos tally.cycles;
        swaps = ℤ.pos tally.swaps;
        occupied_targets = ℤ.pos (count_moves (λ m. occupies m.1 snapshot.entries) moving);
        case_only =
            ℤ.pos
              (count_moves (λ m. not (m.0 == m.1) && pf.casefold m.0 == pf.casefold m.1) moving);
        unicode_only =
            ℤ.pos (count_moves (λ m. not (m.0 == m.1) && pf.nfc m.0 == pf.nfc m.1) moving);
        ancestor_interactions =
            ℤ.pos (count_moves (λ m. elem m.0 target_parents || elem m.1 source_parents) moving);
      }
