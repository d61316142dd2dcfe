-- ===== src/Execution/Rename/Unhindered.antt =====
-- The checks of a rename return, on a tree in order and where no call to the system fails.
use anime_db.Base.{
  ℕ, String, ◌≡◌, refl, Bool, true, false, not, ◌&&◌, ◌||◌, Option, none, some, List, [], ◌∷◌,
  nat_eq_iff, String_eq, ℕ_eq, arith,
}
use anime_db.Base.Effects.{Returns, chain, Returns-raise_if, Returns-pure}
use anime_db.Execution.Paths.{split, has_char, relative_locator_safe}
use anime_db.Execution.Manifest.Validate.{recycled}
use anime_db.Execution.Platform.{Platform}
use anime_db.Execution.Manifest.{ManifestAction}
use anime_db.Execution.Manifest.Keys.{ℤ_eq}
use anime_db.Execution.Rename.Files.{Location, RenameState, step, lookup, fsync}
use anime_db.Execution.Rename.Checks.{
  Host, directories_of, locator, check_root, parent, parent_binding, named, check_fd, check_source,
  absent, differs_from,
}

-- The root is the one that was opened, on its mount.
pub record InOrder (host : Host) : Type 0 where
  pub mounts_same : host.view.mounts_same ≡ true
  pub held_same : host.view.held_same ≡ true
  pub secure : host.view.secure ≡ true
  pub media_mount : host.view.media_mount ≡ true
  pub reopened_same : host.view.reopened_same ≡ true

-- The inode is the file that the action expects.
pub record Expected (host : Host) (a : ManifestAction) (fd : ℕ) : Type 0 where
  pub regular : (host.stat fd).regular ≡ true
  pub own : (host.stat fd).own ≡ true
  pub one_name : (host.stat fd).nlink ≡ 1
  pub size : ℤ_eq (host.stat fd).size a.expected_size ≡ true
  pub mtime_ns : ℤ_eq (host.stat fd).mtime_ns a.expected_mtime_ns ≡ true
  pub on_device : (host.stat fd).on_device ≡ true
  pub on_mount : (host.stat fd).on_mount ≡ true

module _ (pf : Platform) (host : Host) where
  module _ (s : RenameState) (quiet : s.answers ≡ []) where
    pub step-Returns : Returns step s tt s
    unfolding step
    step-Returns = record { is = rw quiet refl }

    never : (b : Bool) → (b && false) ≡ false
    never b = ground arith

    pub check_root-Returns :
        InOrder host → (fresh : Bool) → Returns (check_root pf host fresh) s tt s
    unfolding check_root
    check_root-Returns root fresh = chain _ step-Returns (
        chain _ (Returns-raise_if _ (rw root.mounts_same (never _))) (
          chain _ (Returns-raise_if _ (rw root.held_same refl)) (
            chain _ (Returns-raise_if _ (rw root.secure refl)) (
              chain _ (Returns-raise_if _ (rw root.media_mount (never _)))
                (Returns-raise_if _ (rw root.reopened_same (never _)))))))

    pub parent-Returns :
        (parts : List String) (id : ℕ)
        → host.directory (directories_of parts) ≡ some id
        → Returns (parent pf host parts) s id s
    unfolding parent
    parent-Returns parts id found = chain _ step-Returns (rw found Returns-pure)

    pub parent_binding-Returns :
        (parts : List String) (id : ℕ)
        → host.directory (directories_of parts) ≡ some id
        → Returns (parent_binding pf host parts id) s tt s
    unfolding parent_binding
    parent_binding-Returns parts id found =
        chain _ (parent-Returns parts id found)
          (Returns-raise_if _ (rw ((nat_eq_iff id id).1 refl) refl))

    pub named-Returns :
        (l : Location) (id : ℕ)
        → lookup l s.disk.entries ≡ some id
        → Returns (named pf host l) s id s
    unfolding named
    named-Returns l id found = chain _ step-Returns (record { is = rw found (Returns-pure.is) })

    pub absent-Returns :
        (l : Location) → lookup l s.disk.entries ≡ none → Returns (absent pf host l) s tt s
    unfolding absent
    absent-Returns l free =
        chain _ step-Returns (record { is = rw free ((Returns-raise_if _ refl).is) })

    pub fsync-Returns :
        (id : ℕ)
        → Returns
            (fsync id)
            s
            tt
            (record s { disk = record s.disk { synced = id ∷ s.disk.synced } })
    unfolding fsync
    fsync-Returns id = record { is = rw (step-Returns.is) refl }

    module _ (a : ManifestAction) (fd : ℕ) (file : Expected host a fd) where
      pub check_fd-Returns : Returns (check_fd pf host fd) s tt s
      unfolding check_fd
      check_fd-Returns = chain _ step-Returns (
          chain _ (Returns-raise_if _ (rw file.on_device refl))
            (Returns-raise_if _ (rw file.on_mount refl)))

      pub check_source-Returns :
          (l : Location) (expected : Option ℕ)
          → differs_from pf host fd expected ≡ false
          → lookup l s.disk.entries ≡ some fd
          → Returns (check_source pf host fd l a expected) s tt s
      unfolding check_source
      check_source-Returns l expected same found = chain _ (named-Returns l fd found) (
          Returns-raise_if _ (
            rw
              (
                file.regular,
                file.own,
                file.one_name,
                file.size,
                file.mtime_ns,
                same,
                (nat_eq_iff fd fd).1 refl,
              )
              refl))

  abbrev pub unsafe : String → Bool
  unsafe raw = not (relative_locator_safe raw) || (has_char 0 raw || recycled pf raw)

  pub locator-Returns :
      (s : RenameState) (raw : String)
      → unsafe raw ≡ false
      → Returns (locator pf host raw) s (split raw) s
  unfolding locator
  locator-Returns s raw safe = chain _ (Returns-raise_if _ safe) Returns-pure
