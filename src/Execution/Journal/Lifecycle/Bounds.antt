-- ===== src/Execution/Journal/Lifecycle/Bounds.antt =====
-- A history is finite: no action has two entries of one rank.
use anime_db.Base.{
  ℕ, zero, suc, ◌*◌, ◌≤◌, ◌<◌, String, ◌≡◌, some, List, [], ◌∷◌, length, get_elem?, arith, All,
}
use anime_db.Execution.Platform.{Platform}
use anime_db.Execution.Manifest.{ExecutionManifest, JournalEntry}
use anime_db.Execution.Journal.Admission.{Owned}
use anime_db.Execution.Journal.Lifecycle.{
  Admitted, key, Decreasing, rank-le, Admitted-Decreasing, located,
}

index-lt {ℓ} : {A : Type ℓ} (xs : List A) (i : ℕ) {a : A} → get_elem? xs i ≡ some a → i < length xs
index-lt [] i h = cc
index-lt (x ∷ xs) zero h = omega arith
index-lt (x ∷ xs) (suc i) h = omega (arith, index-lt xs i h)

length-le-key :
    (n : ℕ) (h : List JournalEntry) → All (λ x. key x < n) h → Decreasing h → length h ≤ n
length-le-key n [] all d = omega arith
length-le-key n (e ∷ h) all d = omega (arith, length-le-key (key e) h d.0 d.1)

keys-lt :
    (m : ExecutionManifest) (h : List JournalEntry)
    → All (λ x. Owned m x) h
    → All (λ x. key x < 5 * length m.payload.actions) h
keys-lt m [] o = tt
keys-lt m (e ∷ h) o = (
  omega (arith, index-lt m.payload.actions e.action_index o.0.located, rank-le e.state),
  keys-lt m h o.1,
)

-- Every admitted history has at most five entries for each action of the manifest.
pub length-le-five_actions :
    (pf : Platform) (m : ExecutionManifest) (h : List JournalEntry) (c : List String)
    → Admitted pf m h c
    → length h ≤ 5 * length m.payload.actions
length-le-five_actions pf m h c adm =
    length-le-key (5 * length m.payload.actions) h (keys-lt m h (located pf m adm))
      (Admitted-Decreasing pf m adm)
