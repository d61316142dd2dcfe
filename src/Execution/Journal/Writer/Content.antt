-- ===== src/Execution/Journal/Writer/Content.antt =====
-- What the operations of a writer leave in the file.
use mathlib.Core.List.{append_assoc, append-nil}
use anime_db.Base.{
  ℕ, zero, suc, ◌≡◌, refl, sym, ◌∙◌, ap, Bool, true, false, not, List, [], ◌∷◌, ◌++◌, take, drop,
  Result, ok, err, arith, take-append-drop,
}
use anime_db.Execution.Journal.History.{JournalError}
use anime_db.Execution.Journal.Writer.{
  FileStat, Disk, Answer, interrupted, wrote, refused, write_all, Writer, Kernel, append_frame,
  stop_if, os_error, written, ◌>>◌, then_with,
}
use anime_db.Execution.Journal.Writer.Creating.{
  Creation, create_write, create_header, create_verify, create_file, empty_file,
}

pub write_all-append :
    (answers : List Answer) (raw content : List ℕ)
    → (write_all answers raw content).0 ≡ true
    → (write_all answers raw content).1 ≡ content ++ raw
unfolding write_all
write_all-append answers [] content done = sym (append-nil content)
write_all-append [] (b ∷ raw) content done = cc
write_all-append (interrupted ∷ answers) (b ∷ raw) content done =
    write_all-append answers (b ∷ raw) content done
write_all-append (refused ∷ answers) (b ∷ raw) content done = cc
write_all-append (wrote zero ∷ answers) (b ∷ raw) content done = cc
write_all-append (wrote (suc n) ∷ answers) (b ∷ raw) content done =
    write_all-append answers (drop n raw) (content ++ b ∷ take n raw) done
    ∙ append_assoc content (b ∷ take n raw) (drop n raw)
    ∙ ap (λ t. content ++ b ∷ t) (take-append-drop n raw)

-- Nobody else changes the bytes of the file while the operation runs.
abbrev pub Quiet : Kernel → Type 0
Quiet k = (disk : Disk) → (k.meanwhile disk).content ≡ disk.content

pub append_frame-content :
    (k : Kernel) (w : Writer) (raw : List ℕ) (disk disk' : Disk) (current : FileStat)
    → Quiet k
    → append_frame k w raw disk ≡ (ok current, disk')
    → disk'.content ≡ disk.content ++ raw
unfolding append_frame
append_frame-content k w raw disk disk' current quiet h =
    let (done, content) = write_all k.writes raw disk.content in
    ground
      (arith, write_all-append k.writes raw disk.content, quiet (record disk { content = content }))

-- An append that reports success has written the whole frame behind what was there, and the barrier held.
pub append_frame-file :
    (k : Kernel) (w : Writer) (raw : List ℕ) (disk disk' : Disk) (current : FileStat)
    → append_frame k w raw disk ≡ (ok current, disk')
    → (k.fsync ≡ true) × (disk' ≡ k.meanwhile (record disk { content = disk.content ++ raw }))
unfolding append_frame
append_frame-file k w raw disk disk' current h =
    let (done, content) = write_all k.writes raw disk.content in
    (ground (arith, h), ground (arith, write_all-append k.writes raw disk.content, h))

pub create_write-content :
    (c : Creation) (raw : List ℕ) (disk disk' : Disk)
    → create_write c raw disk ≡ (ok tt, disk')
    → disk'.content ≡ disk.content ++ raw
unfolding create_write
create_write-content c raw disk disk' h = go (write_all c.kernel.writes raw disk.content) refl h
  where
    synced :
        (f p : Bool) (after : Disk)
        → (stop_if (not f) os_error >> stop_if (not p) os_error) after ≡ (ok tt, disk')
        → after ≡ disk'
    synced true true after h = cc
    synced true false after h = cc
    synced false p after h = cc

    go :
        (answer : Bool × List ℕ)
        → write_all c.kernel.writes raw disk.content ≡ answer
        → ((λ d. written disk answer)
              >> (stop_if (not c.kernel.fsync) os_error >> stop_if (not c.parent_fsync) os_error))
            disk
          ≡ (ok tt, disk')
        → disk'.content ≡ disk.content ++ raw
    go (false, content) at h = cc
    go (true, content) at h =
        ap (λ (z : Disk). z.content)
          (sym (synced c.kernel.fsync c.parent_fsync (record disk { content = content }) h))
        ∙ (sym (ap (λ z. z.1) at)
            ∙ write_all-append c.kernel.writes raw disk.content (ap (λ z. z.0) at))

pub create_header-content :
    (c : Creation) (raw : List ℕ) (disk disk' : Disk)
    → create_header c raw disk ≡ (ok tt, disk')
    → disk'.content ≡ disk.content ++ raw
unfolding create_header
create_header-content c raw disk disk' h = ground (arith, create_write-content c raw disk disk')

pub create_verify-content :
    (c : Creation) (raw : List ℕ) (disk disk' : Disk) (current : FileStat)
    → Quiet c.kernel
    → create_verify c raw disk ≡ (ok current, disk')
    → disk'.content ≡ disk.content
unfolding create_verify
create_verify-content c raw disk disk' current quiet h = ground (arith, quiet disk)

pub create_file-content :
    (c : Creation) (raw : List ℕ) (disk disk' : Disk) (current : FileStat)
    → Quiet c.kernel
    → create_file c raw (empty_file disk) ≡ (ok current, disk')
    → disk'.content ≡ raw
unfolding create_file
create_file-content c raw disk disk' current quiet h =
    let (result, middle) = create_header c raw (empty_file disk) in go result middle refl h
  where
    go :
        (result : Result JournalError (Unit {0})) (middle : Disk)
        → create_header c raw (empty_file disk) ≡ (result, middle)
        → then_with result (λ _. create_verify c raw) middle ≡ (ok current, disk')
        → disk'.content ≡ raw
    go (err e) middle at h = cc
    go (ok tt) middle at h =
        create_verify-content c raw middle disk' current quiet h
        ∙ create_header-content c raw (empty_file disk) middle at
