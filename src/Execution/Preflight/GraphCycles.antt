-- ===== src/Execution/Preflight/GraphCycles.antt =====
-- `_graph_report` counts real cycles only.
use anime_db.Base.{
  ℕ, zero, suc, ◌<◌, String, ◌≡◌, ◌≢◌, refl, ◌⊎◌, inl, inr, true, not, ◌||◌, Option, none, some,
  List, [], ◌∷◌, length, elem, All, is_some, String_eq, Bool-cases, arith, if_ind, or_split,
  not-false,
}
use anime_db.Execution.Preflight.Namespace.{Moves, target_of, next_of}
use anime_db.Execution.Manifest.Graph.{trace, Tally, count_path, count_start, count_cycles}
use anime_db.Execution.Preflight.Cycles.{
  Reaches, step, more, in-Trail, unseen, unseen-lt, unseen-le_length,
}

module _ (chains : Moves) where
  abbrev Trail : List String × String → Type 0
  Trail (path, node) = All (λ x. Reaches chains x node) path

  onward :
      (node next : String)
      → target_of chains node ≡ some next
      → (path : List String) → All (λ x. Reaches chains x node) path
      → All (λ x. Reaches chains x next) path
  onward node next at [] all = tt
  onward node next at (x ∷ path) all = (more x node next all.0 at, onward node next at path all.1)

  trace-Trail :
      (fuel : ℕ) (seen path : List String) (node : String)
      → Trail (path, node)
      → Trail (trace fuel chains seen path node)
  unfolding trace
  trace-Trail zero seen path node trail = trail
  trace-Trail (suc fuel) seen path node trail =
      if_ind Trail (not (is_some (target_of chains node)) || (elem node seen || elem node path))
        (λ _. trail)
        (λ on.
          go (target_of chains node) refl
            (not-false _ (or_split (not (is_some (target_of chains node))) _ on).0)
            (λ next at.
              trace-Trail fuel seen (node ∷ path) next
                (step node next at, onward node next at path trail)))
    where
      go :
          (next : Option String)
          → target_of chains node ≡ next
          → is_some next ≡ true
          → ((next : String)
              → target_of chains node ≡ some next
              → Trail (trace fuel chains seen (node ∷ path) next))
          → Trail (trace fuel chains seen (node ∷ path) (next_of node next))
      go none at moves rest = cc
      go (some next) at moves rest = rest next at

  -- Some locator that the chains lead back to itself, or no cycle counted.
  abbrev pub Counted : Tally → Type 0
  Counted tally = (tally.cycles ≡ 0) ⊎ ((node : String) × Reaches chains node node)

  count_path-Counted :
      (tally : Tally) (found : List String × String)
      → Trail found
      → Counted tally
      → Counted (count_path tally found)
  count_path-Counted tally (path, node) trail (inr cycle) = inr cycle
  count_path-Counted tally (path, node) trail (inl none_yet) = elim (Bool-cases (elem node path)) [
    | inl again ↦ inr (node, in-Trail chains path node trail again)
    | inr apart ↦ inl (rw (none_yet, apart) refl)
  ]

  count_cycles-Counted :
      (tally : Tally) (starts : Moves) → Counted tally → Counted (count_cycles chains tally starts)
  unfolding count_cycles
  count_cycles-Counted tally [] counted = counted
  count_cycles-Counted tally ((start, t) ∷ rest) counted =
      count_cycles-Counted (count_start chains tally start) rest (
        if_ind Counted (elem start tally.seen) (λ _. counted)
          (λ _.
            count_path-Counted tally (trace (suc (length chains)) chains tally.seen [] start)
              (trace-Trail (suc (length chains)) tally.seen [] start tt) counted))

-- Where a path ends: no chain leads on, or the node was met before, on this path or an earlier one.
abbrev pub Finished : Moves → List String → List String × String → Type 0
Finished chains seen (path, node) =
    (target_of chains node ≡ none) ⊎ ((elem node seen || elem node path) ≡ true)

finishes :
    (chains : Moves) (seen path : List String) (node : String)
    → (not (is_some (target_of chains node)) || (elem node seen || elem node path)) ≡ true
    → Finished chains seen (path, node)
finishes chains seen path node h = go (target_of chains node) refl h
  where
    go :
        (next : Option String)
        → target_of chains node ≡ next
        → (not (is_some next) || (elem node seen || elem node path)) ≡ true
        → Finished chains seen (path, node)
    go none at h = inl at
    go (some next) at h = inr h

trace-Finished :
    (chains : Moves) (fuel : ℕ) (seen path : List String) (node : String)
    → unseen chains path < fuel
    → Finished chains seen (trace fuel chains seen path node)
unfolding trace
trace-Finished chains zero seen path node lt = ground arith
trace-Finished chains (suc fuel) seen path node lt =
    if_ind (Finished chains seen)
      (not (is_some (target_of chains node)) || (elem node seen || elem node path))
      (λ stop. finishes chains seen path node stop)
      (λ on.
        let (moves, fresh) = or_split (not (is_some (target_of chains node))) _ on in
        go (target_of chains node) refl (not-false _ moves) (λ next at.
          trace-Finished chains fuel seen (node ∷ path) next (
            ground (
              arith,
              lt,
              unseen-lt chains path node next at (or_split (elem node seen) _ fresh).1,
            ))))
  where
    go :
        (next : Option String)
        → target_of chains node ≡ next
        → is_some next ≡ true
        → ((next : String)
            → target_of chains node ≡ some next
            → Finished chains seen (trace fuel chains seen (node ∷ path) next))
        → Finished chains seen (trace fuel chains seen (node ∷ path) (next_of node next))
    go none at moves rest = cc
    go (some next) at moves rest = rest next at

-- The inner loop of `_graph_report`, on the fuel that it is given, stops where the code's loop does.
pub trace_ends :
    (chains : Moves) (seen : List String) (start : String)
    → Finished chains seen (trace (suc (length chains)) chains seen [] start)
trace_ends chains seen start =
    trace-Finished chains (suc (length chains)) seen [] start
      (ground (arith, unseen-le_length chains []))

-- When `_graph_report` counts a cycle, following the moves from some source leads back to it.
pub count_cycles-cycle :
    (chains : Moves)
    → (count_cycles chains (record { cycles = 0; swaps = 0; seen = [] }) chains).cycles ≢ 0
    → (node : String) × Reaches chains node node
count_cycles-cycle chains some_cycle =
    elim (count_cycles-Counted chains (record { cycles = 0; swaps = 0; seen = [] }) chains
      (inl refl)) [ inl none_there ↦ absurd (some_cycle none_there) | inr cycle ↦ cycle ]
