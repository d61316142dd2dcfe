-- ===== src/Execution/Journal/Writer/Roundtrip.antt =====
-- What was appended is what a reader finds.
use mathlib.Core.Path.{subst}
use mathlib.Core.List.{append-nil}
use anime_db.Base.{
  ℕ, suc, String, ◌≡◌, refl, sym, ◌∙◌, ap, true, false, List, [], ◌∷◌, ◌++◌, length, Result, ok,
  err, nat_eq, arith, Option, none, some, eq_iff, >>-ok, ok-injective, if_ind,
}
use anime_db.Execution.Platform.{Platform}
use anime_db.Execution.Manifest.Validate.{validate_manifest}
use anime_db.Execution.Manifest.{ExecutionManifest, JournalEntry}
use text.Mathlib.Text.{◌==◌ as str_eq}
use anime_db.Execution.Journal.{post_init, validate_entry}
use anime_db.Execution.Journal.Admission.{validate_entry-typed}
use anime_db.Execution.Journal.Lifecycle.{complete_with}
use anime_db.Execution.Journal.History.{
  JournalError, Body, header, event, Codec, CodecLaws, Reader, start, header_of, read_header,
  read_event, read_body, frame, read_history, read_bound, read_lines, journal_lines, same_header,
  sequence_of,
}
use anime_db.Execution.Journal.History.Reading.{ReadsTo, ReadsTo-append, ReadsTo-frame, frame-ok}
use anime_db.Execution.Journal.Writer.Appending.{Accepted, Explained, append-Explained}
use anime_db.Execution.Journal.Writer.{FileStat, Disk, Writer, Kernel, append}
use anime_db.Execution.Journal.Writer.Creating.{
  Creation, create_file, empty_file, create, created, new_writer, created_on, create_at,
  frame_header,
}
use anime_db.Execution.Journal.Writer.Content.{Quiet, append_frame-content, create_file-content}

-- A session: a journal that `create` made and the entries that `append` acknowledged since.
pub data Session (pf : Platform) (codec : Codec) (m : ExecutionManifest)
    : Writer → Disk → Type 0 where
  opened :
      (c : Creation) (w : Writer) (disk : Disk)
      → Quiet c.kernel
      → create pf codec c m ≡ (ok w, some disk)
      → Session pf codec m w disk
  appended :
      {w : Writer} {disk : Disk}
      → Session pf codec m w disk
      → (k : Kernel) (e : JournalEntry) (w' : Writer) (disk' : Disk) → Quiet k
      → append pf codec k w e disk ≡ (ok tt, w', disk')
      → Session pf codec m w' disk'

-- The loop variables of a reader that has read what the writer acknowledged.
abbrev reader_of : Writer → Reader
reader_of w = record {
  entries = w.entries;
  completed = w.completed;
  previous_digest = some w.digest;
  sequence = suc (length w.entries);
}

module _ (pf : Platform) (codec : Codec) (laws : CodecLaws codec) (m : ExecutionManifest) where
  pub record Synced (w : Writer) (disk : Disk) : Type 0 where
    expected : Body
    bound : header_of pf codec m ≡ ok expected
    manifest : w.manifest ≡ m
    reads : ReadsTo pf codec laws m expected start disk.content (reader_of w)

  event-read :
      (w : Writer) (e : JournalEntry) (expected : Body)
      → validate_entry pf m w.entries w.completed e ≡ ok tt
      → read_body pf codec m expected (reader_of w) (event (suc (length w.entries)) w.digest e)
        ≡ ok (record {
          entries = e ∷ w.entries;
          completed = complete_with e w.completed;
          previous_digest = some (codec.body_digest (event (suc (length w.entries)) w.digest e));
          sequence = suc (suc (length w.entries));
        })
  unfolding read_body read_event
  event-read w e expected valid =
      let typed : post_init e ≡ ok tt = validate_entry-typed pf m w.entries w.completed e valid in
      let chained : str_eq w.digest w.digest ≡ true = (eq_iff w.digest w.digest).1 refl in
      let later : nat_eq (suc (length w.entries)) 0 ≡ false = ground arith in
      rw (later, chained, typed, valid)

  append-reads :
      (k : Kernel) (w w' : Writer) (e : JournalEntry) (disk disk' : Disk)
      → Quiet k
      → (a : Accepted pf codec k w e disk (ok tt, w', disk')) → (s : Synced w disk)
      → ReadsTo pf codec laws m s.expected start disk'.content (reader_of w')
  append-reads k w w' e disk disk' quiet a s =
      let body = event (suc (length w.entries)) w.digest e in
      let (is_raw, is_digest, fits) = frame-ok pf codec laws body a.raw a.digest a.framed in
      let valid : validate_entry pf m w.entries w.completed e ≡ ok tt =
        subst (λ z. validate_entry pf z w.entries w.completed e ≡ ok tt) s.manifest a.valid in
      let next : reader_of w' ≡ record {
        entries = e ∷ w.entries;
        completed = complete_with e w.completed;
        previous_digest = some (codec.body_digest body);
        sequence = suc (suc (length w.entries));
      } =
        ground (arith, a.entries, a.completed, a.next_digest, is_digest) in
      let more =
        ReadsTo-frame pf codec laws m s.expected (reader_of w) _ body a.raw a.digest a.framed refl
          (event-read w e s.expected valid) in
      let whole =
        ReadsTo-append pf codec laws m s.expected start (reader_of w) _ disk.content a.raw s.reads
          more in
      subst (λ z. ReadsTo pf codec laws m s.expected start z (reader_of w'))
        (sym (append_frame-content k w a.raw disk disk' a.current quiet a.wrote))
        (subst (ReadsTo pf codec laws m s.expected start (disk.content ++ a.raw)) (sym next) whole)

  append-Synced :
      (k : Kernel) (w w' : Writer) (e : JournalEntry) (disk disk' : Disk)
      → Quiet k
      → Accepted pf codec k w e disk (ok tt, w', disk')
      → Synced w disk
      → Synced w' disk'
  append-Synced k w w' e disk disk' quiet a s = record {
    expected = s.expected;
    bound = s.bound;
    manifest = a.manifest ∙ s.manifest;
    reads = append-reads k w w' e disk disk' quiet a s;
  }

  same_header_self : (b : Body) → header_of pf codec m ≡ ok b → same_header pf codec b b ≡ true
  unfolding header_of
  same_header_self b h =
      let (valid, is) = >>-ok (validate_manifest pf m) _ h in
      let own : header 0 "animedb-v6-execution-journal" 1 m.manifest_id (codec.manifest_sha256 m)
          ≡ b =
        ok-injective _ b is in
      subst (λ z. same_header pf codec z z ≡ true) own
        (rw
          (
            (eq_iff m.manifest_id m.manifest_id).1 refl,
            (eq_iff (codec.manifest_sha256 m) (codec.manifest_sha256 m)).1 refl,
          )
          refl)

  sequence_of-header : (b : Body) → header_of pf codec m ≡ ok b → sequence_of b ≡ some 0
  unfolding header_of
  sequence_of-header b h =
      let (valid, is) = >>-ok (validate_manifest pf m) _ h in
      subst (λ z. sequence_of z ≡ some 0) (ok-injective _ b is) refl

  header-reads :
      (b : Body) (raw : List ℕ) (digest : String)
      → header_of pf codec m ≡ ok b
      → frame pf codec b ≡ ok (raw, digest)
      → ReadsTo pf codec laws m b start raw
          (record { entries = []; completed = []; previous_digest = some digest; sequence = 1 })
  unfolding read_body read_header
  header-reads b raw digest bound framed =
      let (is_raw, is_digest, fits) = frame-ok pf codec laws b raw digest framed in
      let same = same_header_self b bound in
      ReadsTo-frame pf codec laws m b start _ b raw digest framed (sequence_of-header b bound)
        (rw (same, is_digest) refl)

  opened-Synced :
      (c : Creation) (w : Writer) (disk : Disk)
      → Quiet c.kernel
      → create pf codec c m ≡ (ok w, some disk)
      → Synced w disk
  unfolding create
  opened-Synced c w disk quiet h = go_header (header_of pf codec m) refl h
    where
      finish :
          (b : Body) (raw : List ℕ) (digest : String) (new : Disk)
          (result : Result JournalError FileStat) (after : Disk)
          → header_of pf codec m ≡ ok b
          → frame pf codec b ≡ ok (raw, digest)
          → create_file c raw (empty_file new) ≡ (result, after)
          → created c m raw digest (result, after) ≡ (ok w, some disk)
          → Synced w disk
      finish b raw digest new (err e) after bound framed made h = cc
      finish b raw digest new (ok current) after bound framed made h =
          let is_writer : new_writer c m raw digest current ≡ w = cc in
          let is_disk : after ≡ disk = cc in
          subst (λ z. Synced z disk) is_writer
            (record {
              expected = b;
              bound = bound;
              manifest = refl;
              reads =
                  subst
                    (λ z. ReadsTo pf codec laws m b start z (record {
                      entries = [];
                      completed = [];
                      previous_digest = some digest;
                      sequence = 1;
                    }))
                    (sym (
                      create_file-content c raw new disk current quiet
                        (made ∙ ap (λ z. (ok current, z)) is_disk)))
                    (header-reads b raw digest bound framed);
            })

      on_file :
          (b : Body) (raw : List ℕ) (digest : String) (file : Option Disk)
          → header_of pf codec m ≡ ok b
          → frame pf codec b ≡ ok (raw, digest)
          → created_on c m raw digest file ≡ (ok w, some disk)
          → Synced w disk
      on_file b raw digest none bound framed h = cc
      on_file b raw digest (some new) bound framed h =
          let (result, after) = create_file c raw (empty_file new) in
          finish b raw digest new result after bound framed refl h

      go_frame :
          (b : Body) (framed : Result String (List ℕ × String))
          → header_of pf codec m ≡ ok b
          → frame pf codec b ≡ framed
          → create_at c m framed c.file ≡ (ok w, some disk)
          → Synced w disk
      go_frame b (err e) bound framed h = cc
      go_frame b (ok (raw, digest)) bound framed h =
          if_ind
            (λ (z : Result JournalError Writer × Option Disk).
              z ≡ (ok w, some disk) → Synced w disk)
            c.parent_opened (λ _ h'. on_file b raw digest c.file bound framed h') (λ _ h'. cc) h

      go_header :
          (bound : Result String Body)
          → header_of pf codec m ≡ bound
          → create_at c m (frame_header pf codec bound) c.file ≡ (ok w, some disk)
          → Synced w disk
      go_header (err e) at h = cc
      go_header (ok b) at h = go_frame b (frame pf codec b) at refl h

  pub Session-Synced : (w : Writer) (disk : Disk) → Session pf codec m w disk → Synced w disk
  Session-Synced w disk (opened c _ _ quiet h) = opened-Synced c w disk quiet h
  Session-Synced w' disk' (appended {w} {disk} before k e _ _ quiet h) =
      append-Synced k w w' e disk disk' quiet
        (subst (Explained pf codec k w e disk) h (append-Explained pf codec k w e disk))
        (Session-Synced w disk before)

  -- Whatever order of creations and appends was acknowledged, on whatever answers of the kernel, a
  -- reader that opens the file under the same manifest finds exactly the acknowledged entries.
  pub Session-read_history :
      (w : Writer) (disk : Disk)
      → Session pf codec m w disk
      → read_history pf codec m disk.content ≡ ok w.entries
  unfolding read_history read_bound
  Session-read_history w disk session =
      let s = Session-Synced w disk session in
      let whole : read_lines pf codec m s.expected start (journal_lines pf codec disk.content)
          ≡ ok (reader_of w) =
        subst
          (λ z.
            read_lines pf codec m s.expected start (journal_lines pf codec z) ≡ ok (reader_of w))
          (append-nil disk.content) (s.reads []) in
      rw (s.bound, whole) refl
