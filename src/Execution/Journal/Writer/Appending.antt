-- ===== src/Execution/Journal/Writer/Appending.antt =====
-- What one `append` does to the acknowledged history, on every path.
use anime_db.Base.{
  ℕ, String, ◌≡◌, refl, ◌⊎◌, inl, inr, true, not, List, ◌∷◌, ◌++◌, Result, ok, err, nat_eq, if_ind,
}
use anime_db.Execution.Platform.{Platform}
use anime_db.Execution.Manifest.{JournalEntry}
use anime_db.Execution.Journal.{validate_entry}
use anime_db.Execution.Journal.Lifecycle.{complete_with}
use anime_db.Execution.Journal.History.{Codec, JournalError}
use anime_db.Execution.Journal.Writer.Content.{append_frame-file}
use anime_db.Execution.Journal.Writer.{
  FileStat, Disk, Writer, Kernel, append_frame, acknowledge, write_framed, frame_of, append_valid,
  append, Outcome,
}

-- Neither the history nor what depends on it has changed.
pub record Unacknowledged (w w' : Writer) : Type 0 where
  pub entries : w'.entries ≡ w.entries
  pub completed : w'.completed ≡ w.completed
  pub digest : w'.digest ≡ w.digest
  pub stat : w'.stat ≡ w.stat
  pub manifest : w'.manifest ≡ w.manifest

-- Either nothing at all has happened, or the writer is poisoned with its history unchanged.
abbrev pub Refused : Writer → Disk → Outcome → Type 0
Refused w disk (answer, w', disk') =
    ((w' ≡ w) × (disk' ≡ disk)) ⊎ ((w'.poisoned ≡ true) × Unacknowledged w w')

pub record Accepted (pf : Platform) (codec : Codec) (k : Kernel) (w : Writer) (e : JournalEntry)
    (disk : Disk) (outcome : Outcome) : Type 0 where
  pub valid : validate_entry pf w.manifest w.entries w.completed e ≡ ok tt
  pub raw : List ℕ
  pub digest : String
  pub framed : frame_of pf codec w e ≡ ok (raw, digest)
  pub current : FileStat
  pub wrote : append_frame k w raw disk ≡ (ok current, outcome.2)
  -- the frame stands behind what was there, and what others do follows
  pub file : outcome.2 ≡ k.meanwhile (record disk { content = disk.content ++ raw })
  pub synced : k.fsync ≡ true
  pub entries : outcome.1.entries ≡ e ∷ w.entries
  pub completed : outcome.1.completed ≡ complete_with e w.completed
  pub next_digest : outcome.1.digest ≡ digest
  pub manifest : outcome.1.manifest ≡ w.manifest

abbrev pub Explained : Platform → Codec → Kernel → Writer → JournalEntry → Disk → Outcome → Type 0
Explained pf codec k w e disk (ok _, w', disk') = Accepted pf codec k w e disk (ok tt, w', disk')
Explained pf codec k w e disk (err x, w', disk') = Refused w disk (err x, w', disk')

module _ (pf : Platform) (codec : Codec) (k : Kernel) (w : Writer) (e : JournalEntry)
    (disk : Disk) where
  acknowledge-Explained :
      (raw : List ℕ) (digest : String) (result : Result JournalError FileStat) (disk' : Disk)
      → validate_entry pf w.manifest w.entries w.completed e ≡ ok tt
      → frame_of pf codec w e ≡ ok (raw, digest)
      → append_frame k w raw disk ≡ (result, disk')
      → (let (answer, w') = acknowledge w e raw digest result in
          Explained pf codec k w e disk (answer, w', disk'))
  unfolding acknowledge
  acknowledge-Explained raw digest (ok current) disk' valid framed wrote = record {
    valid = valid;
    raw = raw;
    digest = digest;
    framed = framed;
    current = current;
    wrote = wrote;
    file = (append_frame-file k w raw disk disk' current wrote).1;
    synced = (append_frame-file k w raw disk disk' current wrote).0;
    entries = refl;
    completed = refl;
    next_digest = refl;
    manifest = refl;
  }
  acknowledge-Explained raw digest (err x) disk' valid framed wrote = inr (
    refl,
    record { entries = refl; completed = refl; digest = refl; stat = refl; manifest = refl },
  )

  write_framed-Explained :
      (f : Result String (List ℕ × String))
      → validate_entry pf w.manifest w.entries w.completed e ≡ ok tt
      → frame_of pf codec w e ≡ f
      → Explained pf codec k w e disk (write_framed k w e disk f)
  write_framed-Explained (err message) valid framed = inl (refl, refl)
  write_framed-Explained (ok (raw, digest)) valid framed =
      let (result, disk') = append_frame k w raw disk in
      acknowledge-Explained raw digest result disk' valid framed refl

  append_valid-Explained :
      (v : Result String (Unit {0}))
      → validate_entry pf w.manifest w.entries w.completed e ≡ v
      → Explained pf codec k w e disk (append_valid pf codec k w e disk v)
  append_valid-Explained (err message) valid = inl (refl, refl)
  append_valid-Explained (ok tt) valid = write_framed-Explained (frame_of pf codec w e) valid refl

  -- An append that returns has put the frame of one valid entry behind what the file held, has had the
  -- file synchronised, and has added that entry to the history. One that raises has either changed
  -- neither writer nor file, or poisoned the writer; in both cases the history is as before.
  pub append-Explained : Explained pf codec k w e disk (append pf codec k w e disk)
  unfolding append
  append-Explained =
      let P = Explained pf codec k w e disk in
      if_ind P (not (nat_eq k.pid w.pid)) (λ _. inl (refl, refl))
        λ _.
          if_ind P w.poisoned (λ _. inl (refl, refl))
            λ _. if_ind P w.closed (λ _. inl (refl, refl)) λ _. append_valid-Explained _ refl
