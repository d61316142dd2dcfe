-- ===== src/Execution/Rename/Keeps.antt =====
-- The checks around a rename change nothing but the list of answers that are left.
use anime_db.Base.{
  ℕ, String, ◌≡◌, refl, Bool, true, false, Option, none, some, List, [], ◌∷◌, nat_eq, nat_eq_iff,
  arith, is_some,
}
use anime_db.Base.Effects.{
  Ensures, Outcome, bind, bind_fact, bind_keep, Ensures-raise_if, Ensures-pure, last_guard,
  raise_if, raise, pure,
}
use anime_db.Execution.Paths.{split}
use anime_db.Execution.Platform.{Platform}
use anime_db.Execution.Manifest.{ManifestAction}
use anime_db.Execution.Rename.Files.{
  Location, Exn, Answer, RenameState, answered, step, lookup, fine, raises, applied,
}
use anime_db.Execution.Rename.Checks.{
  Host, directories_of, locator, check_root, parent, parent_binding, named, check_fd, check_source,
  absent, opened,
}

module _ (P : RenameState → Type 0) (R : Exn → RenameState → Type 0)
    (blind : (s : RenameState) (answers : List Answer) → P s → P (record s { answers = answers }))
    (stops : (e : Exn) (s : RenameState) → P s → R e s) where
  answered-Keeps :
      (answers : List Answer) (s : RenameState) → P s → Outcome (λ _. P) R (answered answers s)
  answered-Keeps [] s p = p
  answered-Keeps (fine ∷ rest) s p = blind s rest p
  answered-Keeps (raises e ∷ rest) s p = stops e (record s { answers = rest }) (blind s rest p)
  answered-Keeps (applied e ∷ rest) s p = stops e (record s { answers = rest }) (blind s rest p)

  pub step-Keeps : Ensures P step (λ _. P) R
  unfolding step
  step-Keeps = record { at = λ s p. answered-Keeps s.answers s p }

  guard-Keeps : (b : Bool) (e : Exn) → Ensures P (raise_if b e) (λ _ s. P s × (b ≡ false)) R
  guard-Keeps b e = Ensures-raise_if b e (stops e)

  module _ (pf : Platform) (host : Host) where
    pub locator-Keeps :
        (raw : String) → Ensures P (locator pf host raw) (λ parts s. P s × (parts ≡ split raw)) R
    unfolding locator
    locator-Keeps raw = bind_fact (guard-Keeps _ _) (λ _ _. Ensures-pure _ (λ s p. (p, refl)))

    pub check_root-Keeps : (fresh : Bool) → Ensures P (check_root pf host fresh) (λ _. P) R
    unfolding check_root
    check_root-Keeps fresh = bind_keep step-Keeps λ _. bind_fact (guard-Keeps _ _) λ _ _.
        bind_fact (guard-Keeps _ _) λ _ _.
          bind_fact (guard-Keeps _ _)
            λ _ _. bind_fact (guard-Keeps _ _) λ _ _. last_guard _ _ (stops _)

    opened-Keeps :
        (found : Option ℕ) → Ensures P (opened pf host found) (λ id s. P s × (found ≡ some id)) R
    unfolding raise pure
    opened-Keeps none = record { at = λ s p. stops _ s p }
    opened-Keeps (some id) = record { at = λ s p. (p, refl) }

    pub parent-Keeps :
        (parts : List String)
        → Ensures P
            (parent pf host parts)
            (λ id s. P s × (host.directory (directories_of parts) ≡ some id))
            R
    unfolding parent
    parent-Keeps parts =
        bind_keep step-Keeps λ _. opened-Keeps (host.directory (directories_of parts))

    pub parent_binding-Keeps :
        (parts : List String) (held : ℕ) → Ensures P (parent_binding pf host parts held) (λ _. P) R
    unfolding parent_binding
    parent_binding-Keeps parts held =
        bind_fact (parent-Keeps parts) λ current _. last_guard _ _ (stops _)

    pub check_fd-Keeps : (fd : ℕ) → Ensures P (check_fd pf host fd) (λ _. P) R
    unfolding check_fd
    check_fd-Keeps fd =
        bind_keep step-Keeps λ _. bind_fact (guard-Keeps _ _) λ _ _. last_guard _ _ (stops _)

    -- The inode that was named is the one in the directory.
    found-Keeps :
        (l : Location) (found : Option ℕ) (s : RenameState)
        → lookup l s.disk.entries ≡ found
        → P s
        → Outcome (λ id s'. P s' × (lookup l s'.disk.entries ≡ some id)) R (opened pf host found s)
    unfolding raise pure
    found-Keeps l none s is p = stops _ s p
    found-Keeps l (some id) s is p = (p, is)

    pub named-Keeps :
        (l : Location)
        → Ensures P (named pf host l) (λ id s. P s × (lookup l s.disk.entries ≡ some id)) R
    unfolding named
    named-Keeps l = record {
      at =
          (bind_keep step-Keeps
            λ _. record { at = λ s p. found-Keeps l (lookup l s.disk.entries) s refl p }).at;
    }

    same_inode :
        (fd inode : ℕ) (l : Location) (b : Bool) (e : Exn)
        → (b ≡ false → nat_eq fd inode ≡ true)
        → Ensures
            (λ s. P s × (lookup l s.disk.entries ≡ some inode))
            (raise_if b e)
            (λ _ s. P s × (lookup l s.disk.entries ≡ some fd))
            R
    unfolding raise_if
    same_inode fd inode l true e same = record { at = λ s p. stops e s p.0 }
    same_inode fd inode l false e same = record {
      at = λ s (p, found). (p, let is = (nat_eq_iff fd inode).0 (same refl) in cc);
    }

    -- A source file that passes is the one in the directory.
    pub check_source-Keeps :
        (fd : ℕ) (l : Location) (a : ManifestAction) (expected : Option ℕ)
        → Ensures P
            (check_source pf host fd l a expected)
            (λ _ s. P s × (lookup l s.disk.entries ≡ some fd))
            R
    unfolding check_source
    check_source-Keeps fd l a expected =
        bind (named-Keeps l) λ inode. same_inode fd inode l _ _ (λ h. ground (arith, h))

    vacant :
        (l : Location) (b : Bool) (e : Exn) (s : RenameState)
        → is_some (lookup l s.disk.entries) ≡ b
        → P s
        → Outcome (λ _ s'. P s' × (is_some (lookup l s'.disk.entries) ≡ false)) R (raise_if b e s)
    unfolding raise_if
    vacant l true e s is p = stops e s p
    vacant l false e s is p = (p, is)

    pub absent-Keeps :
        (l : Location)
        → Ensures P (absent pf host l) (λ _ s. P s × (is_some (lookup l s.disk.entries) ≡ false)) R
    unfolding absent
    absent-Keeps l = record {
      at =
          (bind_keep step-Keeps
            λ _. record { at = λ s p. vacant l (is_some (lookup l s.disk.entries)) _ s refl p }).at;
    }
