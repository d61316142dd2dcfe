-- ===== src/Execution/Mounts/Aliases.antt =====
-- Below an accepted root, no file has a second name among the visible mounts.
use mathlib.Core.Path.{subst}
use mathlib.Core.List.{append_assoc}
use anime_db.Base.{
  String, ◌≡◌, refl, sym, ap, ◌∙◌, inl, inr, Bool, true, false, not, ◌&&◌, ◌||◌, Option, none, some,
  List, [], ◌∷◌, ◌++◌, Any, elem, is_some, Result, ok, err, >>-ok, >>=-ok, raise_if, raise_if-ok,
  ok-injective, for_each, if◌then◌else◌, nat_eq, String_eq, List_eq, not-false, arith, length, suc,
}
use anime_db.Execution.Mounts.Places.{
  Place, strip, within, strip-ok, strip-append, comparable, append_cancel, list_filter,
}
use anime_db.Execution.Mounts.{
  MountRecord, Descriptor, same_device, storage_of, check_overlap, check_other, check_current,
  the_only, check_mounts, shared, check_production_other, check_visible, check_production_mount,
  check_descriptor, ancestry, deepest,
}

-- The mount is one of these.
abbrev pub Listed : MountRecord → List MountRecord → Type 0
Listed m = Any (λ x. x ≡ m)

for_each-at :
    (f : MountRecord → Result String (Unit {0})) (mounts : List MountRecord) (m : MountRecord)
    → for_each mounts f ≡ ok tt
    → Listed m mounts
    → f m ≡ ok tt
for_each-at f [] m h at = elim at [ ]
for_each-at f (x ∷ rest) m h (inl here) =
    subst (λ z. f z ≡ ok tt) here (>>-ok (f x) (for_each rest f) h).0
for_each-at f (x ∷ rest) m h (inr there) =
    for_each-at f rest m (>>-ok (f x) (for_each rest f) h).1 there

-- A mount that passed `check_alias` shows what lies below the storage only under the root.
check_overlap-one_name :
    (root storage : Place) (other : MountRecord) (found : Option Place) (t u : Place)
    → strip other.fs_root storage ≡ found
    → check_overlap root storage other found ≡ ok tt
    → other.fs_root ++ u ≡ storage ++ t
    → other.point ++ u ≡ root ++ t
check_overlap-one_name root storage other (some below) t u at passed same =
    let split = strip-ok other.fs_root storage below at in
    let is_root : other.point ++ below ≡ root =
      (List_eq.decides (other.point ++ below) root).0 (not-false _ (raise_if-ok _ _ passed)) in
    let rest : u ≡ below ++ t =
      append_cancel other.fs_root u (below ++ t)
        (same ∙ ap (λ z. z ++ t) split ∙ append_assoc other.fs_root below t) in
    ap (λ z. other.point ++ z) rest
    ∙ sym (append_assoc other.point below t)
    ∙ ap (λ z. z ++ t) is_root
check_overlap-one_name root storage other none t u at passed same =
    elim (comparable other.fs_root storage u t same) [
      | inl (v, above) ↦ cc (
        at,
        subst (λ z. strip other.fs_root z ≡ some v) (sym above) (strip-append other.fs_root v),
      )
      | inr (v, below) ↦
          let inside : within storage other.fs_root ≡ true =
            subst (λ z. within storage z ≡ true) (sym below)
              (ap is_some (strip-append storage v)) in
          cc (raise_if-ok (within storage other.fs_root) _ passed, inside)
    ]

-- The three tests of the loop's body.
other_ok :
    (allow below own same : Bool) (message : String) (k : Result String (Unit {0}))
    → (if allow && own
        then ok tt
        else if below
        then err message
        else if own || not same
        then ok tt
        else k)
      ≡ ok tt
    → own ≡ false
    → same ≡ true
    → (below ≡ false) × (k ≡ ok tt)
other_ok allow true own same message k h apart alike = ground (arith, h)
other_ok allow false own same message k h apart alike = (refl, ground (arith, h))

below_ok :
    (allow below own same : Bool) (message : String) (k : Result String (Unit {0}))
    → (if allow && own
        then ok tt
        else if below
        then err message
        else if own || not same
        then ok tt
        else k)
      ≡ ok tt
    → own ≡ false
    → below ≡ false
below_ok allow true own same message k h apart = ground (arith, h)
below_ok allow false own same message k h apart = refl

production_ok :
    (below own same : Bool) (message : String) (k : Result String (Unit {0}))
    → (if own then ok tt else if below then err message else if not same then ok tt else k) ≡ ok tt
    → own ≡ false
    → same ≡ true
    → k ≡ ok tt
production_ok below true same message k h apart alike = cc
production_ok true false same message k h apart alike = cc
production_ok false false false message k h apart alike = cc
production_ok false false true message k h apart alike = h

module _ (allow : Bool) (root : Place) (fd : Descriptor) (mounts : List MountRecord)
    (current : MountRecord) where
  check_mounts-loop :
      check_mounts allow root fd mounts ≡ ok current
      → for_each mounts (check_other allow root (storage_of current root) current) ≡ ok tt
  unfolding check_mounts
  check_mounts-loop h =
      let (found, _, h1) =
        >>=-ok
          (the_only "descriptor mount missing from mountinfo"
            (list_filter (λ m. nat_eq m.mount_id fd.mount_id) mounts))
          (check_current allow root fd mounts) h in
      let (_, h2) =
        >>-ok
          (raise_if (not (same_device found.device fd.device) || not (within found.point root)) _) _
          h1 in
      let (_, h3) =
        >>-ok (raise_if (not (elem found.fstype ("ext4" ∷ "btrfs" ∷ "overlay" ∷ []))) _) _ h2 in
      let (_, h4) = >>-ok (raise_if (not (elem "rw" found.options) || fd.read_only) _) _ h3 in
      let (loop, same) =
        >>-ok (for_each mounts (check_other allow root (storage_of found root) found)) (ok found)
          h4 in
      subst (λ m. for_each mounts (check_other allow root (storage_of m root) m) ≡ ok tt)
        (ok-injective found current same) loop

  -- When `_check_mounts` accepts a root, no other mount stands at the root or below it.
  pub check_mounts-no_mount :
      (other : MountRecord)
      → check_mounts allow root fd mounts ≡ ok current
      → Listed other mounts
      → nat_eq other.mount_id current.mount_id ≡ false
      → within root other.point ≡ false
  check_mounts-no_mount other h listed apart =
      below_ok allow (within root other.point) (nat_eq other.mount_id current.mount_id)
        (same_device other.device current.device) _ _
        (for_each-at _ mounts other (check_mounts-loop h) listed) apart

  -- When `_check_mounts` accepts a root, a place on the device that lies below the root has no other
  -- name: where another mount of the same device shows it, it does so under the very same path.
  pub check_mounts-one_name :
      (other : MountRecord) (t u : Place)
      → check_mounts allow root fd mounts ≡ ok current
      → Listed other mounts
      → nat_eq other.mount_id current.mount_id ≡ false
      → same_device other.device current.device ≡ true
      → other.fs_root ++ u ≡ storage_of current root ++ t
      → other.point ++ u ≡ root ++ t
  check_mounts-one_name other t u h listed apart same place =
      let (_, passed) =
        other_ok allow (within root other.point) (nat_eq other.mount_id current.mount_id)
          (same_device other.device current.device) _ _
          (for_each-at _ mounts other (check_mounts-loop h) listed) apart same in
      check_overlap-one_name root (storage_of current root) other
        (strip other.fs_root (storage_of current root)) t u refl passed place

module _ (casefold : String → String) (share_valid : Bool) (share : String) (share_root : Place)
    (writable : Bool) (root : Place) (fd : Option Descriptor) (mounts : List MountRecord)
    (current : MountRecord) where
  abbrev Accepted : Type 0
  Accepted =
      check_production_mount casefold share_valid share share_root writable root fd mounts
      ≡ ok current

  production-loop :
      Accepted → for_each mounts (check_production_other casefold root share_root current) ≡ ok tt
  unfolding check_production_mount
  production-loop h =
      let covering = list_filter (λ m. within m.point root) mounts in
      let (_, h1) = >>-ok (raise_if (not share_valid) _) _ h in
      let (_, h2) = >>-ok (raise_if (nat_eq (length covering) 0) _) _ h1 in
      let (found, _, h3) =
        >>=-ok
          (the_only "ambiguous production media mount"
            (list_filter (λ m. nat_eq (length m.point) (deepest covering)) covering))
          (check_visible casefold share share_root writable root fd mounts) h2 in
      let (ancestors, _, h4) =
        >>=-ok (ancestry (suc (length mounts)) mounts [] (some found)) _ h3 in
      let (_, h5) = >>-ok (raise_if _ "production library is hidden by an ancestor mount") _ h4 in
      let (_, h6) = >>-ok (raise_if _ "production media server/share/subtree differs") _ h5 in
      let (_, h7) = >>-ok (check_descriptor found writable fd) _ h6 in
      let (loop, same) =
        >>-ok (for_each mounts (check_production_other casefold root share_root found)) (ok found)
          h7 in
      subst (λ m. for_each mounts (check_production_other casefold root share_root m) ≡ ok tt)
        (ok-injective found current same) loop

  -- When `_check_production_mount` accepts a library, a place of its share that lies below the
  -- library has no other name: where another mount of the share or the device shows it, it does so
  -- under the very same path.
  pub production-one_name :
      (other : MountRecord) (t u : Place)
      → Accepted
      → Listed other mounts
      → nat_eq other.mount_id current.mount_id ≡ false
      → shared casefold current other ≡ true
      → other.fs_root ++ u ≡ share_root ++ t
      → other.point ++ u ≡ root ++ t
  production-one_name other t u h listed apart same place =
      check_overlap-one_name root share_root other (strip other.fs_root share_root) t u refl
        (production_ok (within root other.point) (nat_eq other.mount_id current.mount_id)
          (shared casefold current other) _ _
          (for_each-at _ mounts other (production-loop h) listed) apart same)
        place
