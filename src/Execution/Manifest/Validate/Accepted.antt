-- ===== src/Execution/Manifest/Validate/Accepted.antt =====
-- What `_validate_manifest` has established when it returns.
use anime_db.Base.{
  nat_eq, in_order, String, ◌≡◌, ◌∙◌, sym, inl, inr, ◌↔◌, true, false, not, ◌||◌, List, [], ◌∷◌,
  any, elem, distinct, All, Result, ok, >>-ok, raise_if-ok, raise_if, for_each, ◌==◌, String_eq,
  List_eq, Bool-cases, not-false, bool_eq, bool_eq_iff, or_split, arith,
}
use mathlib.Core.Path.{subst}
use anime_db.Execution.Paths.{relative_locator_safe, parents}
use anime_db.Execution.Platform.{Platform}
use anime_db.Execution.Manifest.{ManifestAction, ManifestPayload, ExecutionManifest}
use anime_db.Execution.Manifest.Keys.{ℤ_eq, negative}
use anime_db.Execution.Manifest.Validate.{
  validate_manifest, check_action, check_windows_root, check_envelope, check_actions, action_key,
  action_ids, import_namespace, recycled, policy_of, moves, expected_directories, insert_dir,
  insert_dirs, dir_before, move_bytes, action_before, same_record, graph_values, version_of,
  policy_id, planner_id,
}

-- Inserting a directory keeps those that are there and adds its own.
insert_dir-elem :
    (d x : String) (known : List String)
    → elem x (d ∷ known) ≡ true
    → elem x (insert_dir d known) ≡ true
unfolding insert_dir
insert_dir-elem d x [] h = h
insert_dir-elem d x (e ∷ rest) h = elim (Bool-cases (d == e)) [
  | inl same ↦
      let is : d ≡ e = (String_eq.decides d e).0 same in
      let h' = subst (λ z. elem x (z ∷ e ∷ rest) ≡ true) is h in rw same (ground (arith, h'))
  | inr other ↦ elim (Bool-cases (dir_before d e)) [
    | inl first ↦ rw other (rw first h)
    | inr later ↦ rw other (
        rw later (elim (Bool-cases (e == x)) [
          | inl here ↦ ground (arith, here)
          | inr there ↦ ground (arith, there, insert_dir-elem d x rest (ground (arith, h, there)))
        ]))
  ]
]

insert_dirs-kept :
    (x : String) (ds known : List String)
    → elem x known ≡ true
    → elem x (insert_dirs ds known) ≡ true
unfolding insert_dirs
insert_dirs-kept x [] known h = h
insert_dirs-kept x (d ∷ ds) known h =
    insert_dir-elem d x (insert_dirs ds known) (ground (arith, insert_dirs-kept x ds known h))

insert_dirs-added :
    (x : String) (ds known : List String) → elem x ds ≡ true → elem x (insert_dirs ds known) ≡ true
unfolding insert_dirs
insert_dirs-added x [] known h = cc
insert_dirs-added x (d ∷ ds) known h =
    insert_dir-elem d x (insert_dirs ds known) (elim (Bool-cases (d == x)) [
      | inl here ↦ ground (arith, here)
      | inr there ↦ ground (arith, there, insert_dirs-added x ds known (ground (arith, h, there)))
    ])

-- The directories hold every parent of the target of each action.
abbrev pub Sheltered : List String → ManifestAction → Type 0
Sheltered directories a =
    (d : String) → elem d (parents a.target) ≡ true → elem d directories ≡ true

All-map {ℓ} :
    {A : Type ℓ} {P Q : A → Type 0} → ((a : A) → P a → Q a) → (xs : List A) → All P xs → All Q xs
All-map f [] h = tt
All-map f (x ∷ xs) (first, rest) = (f x first, All-map f xs rest)

expected_directories-Sheltered :
    (actions : List ManifestAction) → All (Sheltered (expected_directories actions)) actions
unfolding expected_directories
expected_directories-Sheltered [] = tt
expected_directories-Sheltered (a ∷ rest) = (
  λ d there. insert_dirs-added d (parents a.target) (expected_directories rest) there,
  All-map
      (λ b old d there.
        insert_dirs-kept d (parents a.target) (expected_directories rest) (old d there))
      rest (expected_directories-Sheltered rest),
)

for_each-All {ℓ} :
    {A : Type ℓ} {P : A → Type 0} (f : A → Result String (Unit {0}))
    → ((a : A) → f a ≡ ok tt → P a)
    → (xs : List A) → for_each xs f ≡ ok tt
    → All P xs
for_each-All f sound [] h = tt
for_each-All f sound (x ∷ xs) h =
    let (first, rest) = >>-ok (f x) (for_each xs f) h in
    (sound x first, for_each-All f sound xs rest)

module _ (pf : Platform) where
  -- An action that a manifest may carry beside the actions `ids`.
  pub record Sound (ids : List String) (a : ManifestAction) : Type 0 where
    pub source_safe : relative_locator_safe a.source ≡ true
    pub target_safe : relative_locator_safe a.target ≡ true
    pub source_outside : (import_namespace pf a.source ≡ false) × (recycled pf a.source ≡ false)
    pub target_outside : (import_namespace pf a.target ≡ false) × (recycled pf a.target ≡ false)
    pub stays : (a.action ≡ "KEEP") ↔ (a.source ≡ a.target)
    pub identity : a.action_id ≡ pf.tuple_digest (action_key pf a)
    pub absent : a.expected_target_absent ≡ moves a
    pub policy : a.failure_policy ≡ policy_of a.criticality
    pub known : any (λ d. not (elem d ids)) a.depends_on ≡ false

  same_tests :
      (a : ManifestAction)
      → bool_eq (a.action == "KEEP") (a.source == a.target) ≡ true
      → (a.action ≡ "KEEP") ↔ (a.source ≡ a.target)
  same_tests a h =
      let is = (bool_eq_iff _ _).0 h in
      (
        λ keep. (String_eq.decides _ _).0 (sym is ∙ (String_eq.decides _ _).1 keep),
        λ same. (String_eq.decides _ _).0 (is ∙ (String_eq.decides _ _).1 same),
      )

  check_action-Sound :
      (ids : List String) (a : ManifestAction) → check_action pf ids a ≡ ok tt → Sound ids a
  unfolding check_action
  check_action-Sound ids a h =
      let (g0, r0) = >>-ok (raise_if _ _) _ h in
      let (g1, r1) = >>-ok (raise_if _ _) _ r0 in
      let (g2, r2) = >>-ok (raise_if _ _) _ r1 in
      let (g3, r3) = >>-ok (raise_if _ _) _ r2 in
      let (g4, r4) = >>-ok (raise_if _ _) _ r3 in
      let (g5, r5) = >>-ok (raise_if _ _) _ r4 in
      let (g6, r6) = >>-ok (raise_if _ _) _ r5 in
      let (g7, r7) = >>-ok (raise_if _ _) _ r6 in
      let (g8, g9) = >>-ok (raise_if _ _) _ r7 in
      let (s, t) = or_split _ _ (raise_if-ok _ _ g1) in
      let (si, ti) = or_split _ _ (raise_if-ok _ _ g2) in
      let (sr, tr) = or_split _ _ (raise_if-ok _ _ g3) in
      let (regular, absent) = or_split _ _ (raise_if-ok _ _ g7) in
      record {
        source_safe = not-false _ s;
        target_safe = not-false _ t;
        source_outside = (si, sr);
        target_outside = (ti, tr);
        stays = same_tests a (not-false _ (raise_if-ok _ _ g5));
        identity = (String_eq.decides _ _).0 (not-false _ (raise_if-ok _ _ g6));
        absent = (bool_eq_iff _ _).0 (not-false _ absent);
        policy = (String_eq.decides _ _).0 (not-false _ (raise_if-ok _ _ g8));
        known = raise_if-ok _ _ g9;
      }

  pub record Accepted (m : ExecutionManifest) : Type 0 where
    pub sealed : pf.payload_digest m.payload ≡ m.manifest_id
    pub unique : distinct ◌==◌ (action_ids m.payload.actions) ≡ true
    pub actions : All (Sound (action_ids m.payload.actions)) m.payload.actions
    pub sheltered : All (Sheltered m.payload.directories) m.payload.actions

  check_envelope-sealed :
      (m : ExecutionManifest)
      → check_envelope pf m ≡ ok tt
      → pf.payload_digest m.payload ≡ m.manifest_id
  unfolding check_envelope
  check_envelope-sealed m h =
      let (g0, r0) = >>-ok (raise_if (not (pf.is_absolute m.payload.library_root)) _) _ h in
      let (g1, r1) =
        >>-ok (raise_if (not (pf.inventory_root_valid m.payload.library_root)) _) _ r0 in
      let (g2, r2) = >>-ok (raise_if (not (pf.payload_digest m.payload == m.manifest_id)) _) _ r1 in
      (String_eq.decides _ _).0 (not-false _ (raise_if-ok _ _ g2))

  record ActionsChecked (p : ManifestPayload) : Type 0 where
    unique : distinct ◌==◌ (action_ids p.actions) ≡ true
    actions : All (Sound (action_ids p.actions)) p.actions
    directories : p.directories ≡ expected_directories p.actions

  check_actions-checked : (p : ManifestPayload) → check_actions pf p ≡ ok tt → ActionsChecked p
  unfolding check_actions
  check_actions-checked p h =
      let ids = action_ids p.actions in
      let (g0, r0) =
        >>-ok (raise_if (not (ℤ_eq p.logical_move_bytes (move_bytes p.actions))) _) _ h in
      let (g1, r1) = >>-ok (raise_if (any negative (graph_values p.graph)) _) _ r0 in
      let (g2, r2) = >>-ok (raise_if (not (in_order action_before p.actions)) _) _ r1 in
      let (g3, r3) = >>-ok (raise_if (not (distinct same_record p.actions)) _) _ r2 in
      let (g4, r4) = >>-ok (raise_if (not (distinct ◌==◌ ids)) _) _ r3 in
      let (g5, r5) = >>-ok (for_each p.actions (check_action pf ids)) _ r4 in
      let (g6, g7) = >>-ok (raise_if (any (import_namespace pf) p.directories) _) _ r5 in
      record {
        unique = not-false _ (raise_if-ok _ _ g4);
        actions = for_each-All (check_action pf ids) (check_action-Sound ids) p.actions g5;
        directories = (List_eq.decides _ _).0 (not-false _ (raise_if-ok _ _ g7));
      }

  -- A manifest that _validate_manifest accepts bears the digest of its payload as its identity. Its
  -- actions have different identities, each the digest of the action's key; they name safe locators
  -- outside IMPORT and the recycle bins, are KEEP exactly when source and target agree, expect an
  -- absent target exactly when they move, fail by the policy of their criticality and depend only on
  -- actions of the manifest. Its directories hold every parent of every target.
  pub validate_manifest-Accepted :
      (m : ExecutionManifest) → validate_manifest pf m ≡ ok tt → Accepted m
  unfolding validate_manifest
  validate_manifest-Accepted m h =
      let p = m.payload in
      let (g0, r0) =
        >>-ok
          (raise_if
            (not (nat_eq p.version (version_of p.payload_type))
              || (not (p.policy_id == policy_id) || not (p.planner_id == planner_id)))
            _)
          _ h in
      let (g1, r1) = >>-ok (check_windows_root pf p.payload_type) _ r0 in
      let (envelope, r2) = >>-ok (check_envelope pf m) _ r1 in
      let (checked, details) = >>-ok (check_actions pf p) _ r2 in
      let found = check_actions-checked p checked in
      record {
        sealed = check_envelope-sealed m envelope;
        unique = found.unique;
        actions = found.actions;
        sheltered =
            subst (λ ds. All (Sheltered ds) p.actions) (sym found.directories)
              (expected_directories-Sheltered p.actions);
      }
