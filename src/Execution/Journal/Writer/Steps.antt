-- ===== src/Execution/Journal/Writer/Steps.antt =====
-- All operations of a writer in any order, failed ones included.
use mathlib.Core.Path.{subst}
use anime_db.Base.{
  ◌≡◌, ◌∙◌, refl, sym, ◌⊎◌, inl, inr, Bool, true, not, ◌||◌, String, ℕ, List, ◌∷◌, Result, ok, err,
  Option, none, some, if_ind, nat_eq,
}
use anime_db.Execution.Platform.{Platform}
use anime_db.Execution.Manifest.{ExecutionManifest, JournalEntry}
use anime_db.Execution.Journal.Lifecycle.{Admitted, empty, complete_with}
use anime_db.Execution.Journal.Lifecycle
use anime_db.Execution.Journal.{validate_entry}
use anime_db.Execution.Journal.History.{Codec, header_of, JournalError}
use anime_db.Execution.Journal.Writer.Appending.{Explained, append-Explained}
use anime_db.Execution.Journal.Writer.{
  Disk, Writer, Kernel, append, checkpoint, poison, inspect_live, close, Outcome, FileStat,
  same_headers,
}
use anime_db.Execution.Journal.Writer.Creating.{
  Creation, create, created, created_on, create_at, frame_header, new_writer, create_file,
  empty_file,
}

-- One operation on a live writer: the answer, and writer and file behind it.
pub data Step (pf : Platform) (codec : Codec) (w : Writer) (disk : Disk) : Outcome → Type 0 where
  appends : (k : Kernel) (e : JournalEntry) → Step pf codec w disk (append pf codec k w e disk)
  checkpoints :
      (k : Kernel) (same_manifest : Bool) → Step pf codec w disk (checkpoint k same_manifest w disk)
  inspects :
      (k : Kernel) (m : ExecutionManifest) → Step pf codec w disk (inspect_live pf codec k m w disk)
  closes : Step pf codec w disk (ok tt, close w, disk)

-- The writers that a creation and any operations since lead to.
pub data Reachable (pf : Platform) (codec : Codec) (m : ExecutionManifest) : Writer → Type 0 where
  fresh :
      (c : Creation) (w : Writer) (file : Option Disk)
      → create pf codec c m ≡ (ok w, file)
      → Reachable pf codec m w
  stepped :
      {w : Writer}
      → Reachable pf codec m w
      → (disk : Disk) (outcome : Outcome) → Step pf codec w disk outcome
      → Reachable pf codec m outcome.1

-- A writer of the manifest with a valid history.
pub record Sound (pf : Platform) (m : ExecutionManifest) (w : Writer) : Type 0 where
  pub manifest : w.manifest ≡ m
  pub admitted : Admitted pf m w.entries w.completed

-- What a reading operation may do to the writer.
abbrev Reads : Writer → Outcome → Type 0
Reads w outcome = (outcome.1 ≡ w) ⊎ (outcome.1 ≡ record w { poisoned = true })

module _ (w : Writer) where
  poison-Reads : (answer : Result JournalError (Unit {0}) × Disk) → Reads w (poison w answer)
  unfolding poison
  poison-Reads (ok _, disk) = inl refl
  poison-Reads (err e, disk) = inr refl

  checkpoint-Reads :
      (k : Kernel) (same_manifest : Bool) (disk : Disk)
      → Reads w (checkpoint k same_manifest w disk)
  unfolding checkpoint
  checkpoint-Reads k same_manifest disk =
      if_ind (Reads w) (not (nat_eq k.pid w.pid)) (λ _. inl refl)
        λ _.
          if_ind (Reads w) (w.closed || (w.poisoned || not same_manifest)) (λ _. inl refl)
            λ _. poison-Reads _

  Reads-Sound :
      (pf : Platform) (m : ExecutionManifest) (outcome : Outcome)
      → Reads w outcome
      → Sound pf m w
      → Sound pf m outcome.1
  Reads-Sound pf m outcome (inl same) s = subst (Sound pf m) (sym same) s
  Reads-Sound pf m outcome (inr worse) s =
      subst (Sound pf m) (sym worse) (record { manifest = s.manifest; admitted = s.admitted })

module _ (pf : Platform) (codec : Codec) where
  inspect_live-Reads :
      (k : Kernel) (m : ExecutionManifest) (w : Writer) (disk : Disk)
      → Reads w (inspect_live pf codec k m w disk)
  unfolding inspect_live
  inspect_live-Reads k m w disk =
      if_ind (Reads w) (not (nat_eq k.pid w.pid)) (λ _. inl refl)
        λ _.
          if_ind (Reads w) w.closed (λ _. inl refl)
            λ _.
              if_ind (Reads w) w.poisoned (λ _. inl refl)
                λ _.
                  if_ind (Reads w)
                    (not (
                      same_headers pf codec (header_of pf codec m) (header_of pf codec w.manifest)))
                    (λ _. inl refl) λ _. poison-Reads w _

  append-Sound :
      (m : ExecutionManifest) (k : Kernel) (e : JournalEntry) (w : Writer) (disk : Disk)
      (outcome : Outcome)
      → Explained pf codec k w e disk outcome
      → Sound pf m w
      → Sound pf m outcome.1
  append-Sound m k e w disk (ok tt, w', disk') a s = record {
    manifest = a.manifest ∙ s.manifest;
    admitted =
        let valid : validate_entry pf m w.entries w.completed e ≡ ok tt =
          subst (λ z. validate_entry pf z w.entries w.completed e ≡ ok tt) s.manifest a.valid in
        let grown : Admitted pf m (e ∷ w.entries) (complete_with e w.completed) =
          Lifecycle.append s.admitted e valid in
        subst (λ z. Admitted pf m z w'.completed) (sym a.entries)
          (subst (Admitted pf m (e ∷ w.entries)) (sym a.completed) grown);
  }
  append-Sound m k e w disk (err x, w', disk') (inl (same, _)) s = subst (Sound pf m) (sym same) s
  append-Sound m k e w disk (err x, w', disk') (inr (_, u)) s = record {
    manifest = u.manifest ∙ s.manifest;
    admitted =
        subst (λ z. Admitted pf m z w'.completed) (sym u.entries)
          (subst (Admitted pf m w.entries) (sym u.completed) s.admitted);
  }

  Step-Sound :
      (m : ExecutionManifest) (w : Writer) (disk : Disk) (outcome : Outcome)
      → Step pf codec w disk outcome
      → Sound pf m w
      → Sound pf m outcome.1
  unfolding close
  Step-Sound m w disk _ (appends k e) s =
      append-Sound m k e w disk (append pf codec k w e disk) (append-Explained pf codec k w e disk)
        s
  Step-Sound m w disk _ (checkpoints k same_manifest) s =
      Reads-Sound w pf m (checkpoint k same_manifest w disk)
        (checkpoint-Reads w k same_manifest disk) s
  Step-Sound m w disk _ (inspects k m') s =
      Reads-Sound w pf m (inspect_live pf codec k m' w disk) (inspect_live-Reads k m' w disk) s
  Step-Sound m w disk _ closes s = record { manifest = s.manifest; admitted = s.admitted }

  create-Sound :
      (m : ExecutionManifest) (c : Creation) (w : Writer) (file : Option Disk)
      → create pf codec c m ≡ (ok w, file)
      → Sound pf m w
  unfolding create
  create-Sound m c w file h = go_frame (frame_header pf codec (header_of pf codec m)) h
    where
      finish :
          (raw : List ℕ) (digest : String) (answer : Result JournalError FileStat × Disk)
          → created c m raw digest answer ≡ (ok w, file)
          → Sound pf m w
      finish raw digest (err e, after) h = cc
      finish raw digest (ok current, after) h =
          let is_writer : new_writer c m raw digest current ≡ w = cc in
          subst (Sound pf m) is_writer (record { manifest = refl; admitted = empty })

      on_file :
          (raw : List ℕ) (digest : String) (new : Option Disk)
          → created_on c m raw digest new ≡ (ok w, file)
          → Sound pf m w
      on_file raw digest none h = cc
      on_file raw digest (some disk) h = finish raw digest (create_file c raw (empty_file disk)) h

      go_frame :
          (framed : Result String (List ℕ × String))
          → create_at c m framed c.file ≡ (ok w, file)
          → Sound pf m w
      go_frame (err e) h = cc
      go_frame (ok (raw, digest)) h =
          if_ind (λ (z : Result JournalError Writer × Option Disk). z ≡ (ok w, file) → Sound pf m w)
            c.parent_opened (λ _ h'. on_file raw digest c.file h') (λ _ h'. cc) h

  -- Whatever operations are run on a new writer, in any order and with any answers of the kernel,
  -- the history that it holds is one that the manifest admits.
  pub Reachable-Sound : (m : ExecutionManifest) (w : Writer) → Reachable pf codec m w → Sound pf m w
  Reachable-Sound m w (fresh c _ file h) = create-Sound m c w file h
  Reachable-Sound m _ (stepped {w} before disk outcome step) =
      Step-Sound m w disk outcome step (Reachable-Sound m w before)

-- The operation raises, and writer and file are as they were.
abbrev pub Raises : Writer → Disk → Outcome → Type 0
Raises w disk outcome = (e : JournalError) × (outcome ≡ (err e, w, disk))

module _ (pf : Platform) (codec : Codec) (w : Writer) (disk : Disk) where
  -- What each operation may still do: `close` closes, and the others raise.
  abbrev pub Dead : (outcome : Outcome) → Step pf codec w disk outcome → Type 0
  Dead outcome (appends k e) = Raises w disk outcome
  Dead outcome (checkpoints k same_manifest) = Raises w disk outcome
  Dead outcome (inspects k m) = Raises w disk outcome
  Dead outcome closes = outcome ≡ (ok tt, record w { closed = true }, disk)
