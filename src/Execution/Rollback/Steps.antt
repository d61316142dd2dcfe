-- ===== src/Execution/Rollback/Steps.antt =====
-- The plan of a rollback, and the steps that keep to it.
use anime_db.Base.{ℕ, ◌≡◌, sym, ap, ◌⊎◌, Bool, true, false, List, [], ◌∷◌, ◌++◌, if◌then◌else◌, ◌+◌}
use anime_db.Base.Effects.{Ensures, Outcome, pure, modify, bind, Ensures-pure, Ensures-modify}
use mathlib.Core.Path.{subst}
use anime_db.Execution.World.{
  consult, expect, change, set_own, Ahead, consult-Step, expect-Step, change-Step, keep-Step,
}
use anime_db.Execution.Rollback.{
  Exn, stop, Mark, approved, attempt, verified, Event, created, recorded, renamed, synced_file,
  synced_source, synced_target, Locals, Act, Rollback, check_record, stable, append,
}

-- What happens before the rename, and from it on.
abbrev pub early : List Event
early = created ∷ recorded approved 0 ∷ recorded attempt 1 ∷ []

abbrev pub later : Bool → List Event
later one_directory =
    renamed
    ∷ synced_file
    ∷ synced_target
    ∷ (if one_directory then recorded verified 2 ∷ [] else synced_source ∷ recorded verified 2 ∷ [])

abbrev pub plan : Bool → List Event
plan one_directory = early ++ later one_directory

abbrev pub Begun : List Event → Rollback → Type 0
Begun all w = (rest : List Event) × (all ≡ w.log ++ rest)

abbrev pub Halted : Bool → Rollback → Type 0
Halted one_directory w =
    ((w.own.attempted ≡ false) × Begun early w)
    ⊎ ((w.own.attempted ≡ true) × Begun (plan one_directory) w)

abbrev pub Locally : Bool → ℕ → Locals → Type 0
Locally attempted n x = (x.attempted ≡ attempted) × (x.sequence ≡ n)

module _ (one_directory attempted : Bool) (all : List Event)
    (halted : (rest : List Event) (w : Rollback)
      → (w.own.attempted ≡ attempted)
      → (all ≡ w.log ++ rest)
      → Halted one_directory w) where
  abbrev pub Goes : ℕ → List Event → ℕ → List Event → {A : Type 0} → Act A → Type 0
  Goes n rest n' rest' {A} m =
      Ensures (Ahead all (Locally attempted n) (λ (_ : Exn). Halted one_directory) rest) m
        (λ (_ : A). Ahead all (Locally attempted n') (λ (_ : Exn). Halted one_directory) rest')
        (λ _. Halted one_directory)

  module _ {n : ℕ} where
    pub halts :
        (rest : List Event) (e : Exn) (w : Rollback)
        → Ahead all (Locally attempted n) (λ (_ : Exn). Halted one_directory) rest w
        → Halted one_directory w
    halts rest e w h = halted rest w h.0.0 h.1

  module _ {n : ℕ} {rest : List Event} where
    pub consults : Goes n rest n rest consult
    consults = consult-Step all (Locally attempted n) (λ _. Halted one_directory) halts

    pub expects : Goes n rest n rest (expect stop)
    expects = expect-Step all (Locally attempted n) (λ _. Halted one_directory) halts stop

    pub keeps :
        (f : Locals → Locals)
        → ((x : Locals) → Locally attempted n x → Locally attempted n (f x))
        → Goes n rest n rest (modify (set_own f))
    keeps f k = keep-Step all (Locally attempted n) (λ _. Halted one_directory) halts f k

    pub if_goes :
        (b : Bool) {m : Act (Unit {0})}
        → Goes n rest n rest m
        → Goes n rest n rest (if b then m else pure tt)
    if_goes true g = g
    if_goes false g = Ensures-pure _ (λ w h. h)

    pub check_record-Goes : Goes n rest n rest check_record
    unfolding check_record
    check_record-Goes = record { at = λ w h. (if_goes w.own.record_open expects).at w h }

    pub stable-Goes : (moved : Bool) → Goes n rest n rest (stable moved)
    unfolding stable
    stable-Goes moved = bind consults λ _. bind consults λ _. bind check_record-Goes λ _.
        bind consults λ _. bind expects λ _. bind consults λ _. bind consults λ _. bind expects λ _.
          bind consults λ _.
            bind consults
              λ _. bind consults λ _. bind expects λ _. if_goes moved (bind expects λ _. expects)

  pub changes : (n : ℕ) (v : Event) (rest : List Event) → Goes n (v ∷ rest) n rest (change v)
  changes n v rest = change-Step all (Locally attempted n) (λ _. Halted one_directory) halts v rest

  pub records :
      (n : ℕ) (mark : Mark) (rest : List Event)
      → Goes n (recorded mark n ∷ rest) n rest (λ w. change (recorded mark w.own.sequence) w)
  records n mark rest = record {
    at = λ w h.
        subst
          (λ k.
            Outcome (λ _. Ahead all (Locally attempted n) (λ (_ : Exn). Halted one_directory) rest)
              (λ _. Halted one_directory) (change (recorded mark k) w))
          (sym h.0.1) ((changes n (recorded mark n) rest).at w h);
  }

  pub append-Goes :
      (n : ℕ) (mark : Mark) (rest : List Event)
      → Goes n (recorded mark n ∷ rest) (n + 1) rest (append mark)
  unfolding append
  append-Goes n mark rest = bind consults λ _. bind consults λ _. bind check_record-Goes λ _.
      bind (records n mark rest) λ _. bind consults λ _. bind consults λ _.
        bind check_record-Goes λ _. Ensures-modify _ (λ w h. ((h.0.0, ap (λ k. k + 1) h.0.1), h.1))
