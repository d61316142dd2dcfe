-- ===== src/Execution/Journal/Lifecycle/Phases.antt =====
-- An action that completes has passed through every phase, one behind the other.
use mathlib.Core.Path.{subst}
use anime_db.Base.{ℕ, String, ◌≡◌, ◌≢◌, refl, inl, inr, ◌∙◌, sym, true, List, [], ◌∷◌, ok, arith}
use anime_db.Execution.Platform.{Platform}
use anime_db.Execution.Manifest.{
  State, pending, fs_applied, fs_verified, db_reconciled, complete, ExecutionManifest, JournalEntry,
}
use anime_db.Execution.Journal.{allowed, validate_entry}
use anime_db.Execution.Journal.Admission.{validate_entry-ok, check_order-ok, check_order-first}
use anime_db.Execution.Journal.Lifecycle.{Admitted, append}

-- The entry of the same action that stands directly behind one.
pub record Behind (e : JournalEntry) (h : List JournalEntry) : Type 0 where
  pub entry : JournalEntry
  pub rest : List JournalEntry
  pub stands : h ≡ entry ∷ rest
  pub index : entry.action_index ≡ e.action_index
  pub step : allowed entry.state e.state ≡ true

module _ (pf : Platform) (m : ExecutionManifest) where
  behind :
      (h : List JournalEntry) (c : List String) (e : JournalEntry)
      → validate_entry pf m h c e ≡ ok tt
      → e.state ≢ pending
      → Behind e h
  behind [] c e passed later =
      let (owned, order) = validate_entry-ok pf m [] c e passed in
      absurd (later (check_order-first pf m c owned.action e order).first)
  behind (p ∷ h) c e passed later =
      let (owned, order) = validate_entry-ok pf m (p ∷ h) c e passed in
      elim (check_order-ok pf m p h c owned.action e order) [
        | inl (same, step) ↦ record {
          entry = p;
          rest = h;
          stands = refl;
          index = sym same;
          step = step;
        }
        | inr start ↦ absurd (later start.first)
      ]

  -- Whether the newest entry of a history is of action `k`, in state `s`, with `P` behind it.
  abbrev Newest : ℕ → State → (List JournalEntry → Type 0) → List JournalEntry → Type 0
  Newest k s P [] = ⊥
  Newest k s P (e ∷ h) = (e.action_index ≡ k) × (e.state ≡ s) × P h

  abbrev Later : ℕ → State → (List JournalEntry → Type 0) → Type 0
  Later k s P =
      (e : JournalEntry) (h : List JournalEntry) (c : List String)
      → Admitted pf m (e ∷ h) c
      → e.state ≡ s
      → e.action_index ≡ k
      → P h

  -- Phase `s` follows on phase `t` alone.
  descend :
      (k : ℕ) (s t : State) (P : List JournalEntry → Type 0)
      → ((x : State) → allowed x s ≡ true → x ≡ t)
      → s ≢ pending
      → Later k t P
      → Later k s (Newest k t P)
  descend k s t P only later below e h c (append {c = c'} adm _ passed) at same =
      let b = behind h c' e passed (λ start. later (sym at ∙ start)) in
      subst (Newest k t P) (sym b.stands) (
        b.index ∙ same,
        only b.entry.state (subst (λ z. allowed b.entry.state z ≡ true) at b.step),
        below b.entry b.rest c' (subst (λ z. Admitted pf m z c') b.stands adm)
            (only b.entry.state (subst (λ z. allowed b.entry.state z ≡ true) at b.step))
            (b.index ∙ same),
      )

  abbrev pub FullRun : ℕ → List JournalEntry → Type 0
  FullRun k =
      Newest k db_reconciled
        (Newest k fs_verified (Newest k fs_applied (Newest k pending (λ _. Unit))))

  -- Behind a COMPLETE entry stand the DB_RECONCILED, FS_VERIFIED, FS_APPLIED and PENDING entries of
  -- the same action, in this order with nothing between them.
  pub complete-FullRun :
      (e : JournalEntry) (h : List JournalEntry) (c : List String)
      → Admitted pf m (e ∷ h) c
      → e.state ≡ complete
      → FullRun e.action_index h
  complete-FullRun e h c adm at =
      descend e.action_index complete db_reconciled _ (λ x step. ground arith) (λ z. cc)
        (descend e.action_index db_reconciled fs_verified _ (λ x step. ground arith) (λ z. cc)
          (descend e.action_index fs_verified fs_applied _ (λ x step. ground arith) (λ z. cc)
            (descend e.action_index fs_applied pending _ (λ x step. ground arith) (λ z. cc)
              (λ _ _ _ _ _ _. tt))))
        e h c adm at refl
