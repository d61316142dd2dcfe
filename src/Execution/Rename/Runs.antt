-- ===== src/Execution/Rename/Runs.antt =====
-- A session renames each file of a manifest at most once, over all the requests that it serves.
use anime_db.Base.{
  String, ◌≡◌, refl, ap, ◌⊎◌, inl, inr, Bool, true, false, Option, List, [], ◌∷◌, ◌++◌, any,
  distinct, ok, err, Result, if◌then◌else◌, All, ◌==◌, String_eq, or_split, equal-sym,
}
use anime_db.Base.Effects.{Outcome, outcome_after}
use anime_db.Execution.Platform.{Platform}
use anime_db.Execution.Manifest.{ManifestAction, ExecutionManifest}
use anime_db.Execution.Rename.Files.{Exn, RenameState, Session}
use anime_db.Execution.Rename.Checks.{Host}
use anime_db.Execution.Rename.Outcomes.{KeysGrown}
use anime_db.Execution.Rename.Once.{Finished, rename-Finished}
use anime_db.Execution.Rename.{RenameResult, Observation, rename, key_eq}

pub record Request : Type 0 where
  pub same_process : Bool
  pub manifest : ExecutionManifest
  pub action : ManifestAction
  pub observation : Option Observation

abbrev pub Key : Type 0
Key = String × String

-- The action that a call has renamed durably, if it has.
abbrev pub durable_key : Result Exn RenameResult → List Key
durable_key (ok r) = if r.outcome == "DURABLE" then (r.manifest_id, r.action_id) ∷ [] else []
durable_key (err e) = []

module _ (pf : Platform) (host : Host) where
  abbrev pub serve : Request → RenameState → Result Exn RenameResult × RenameState
  serve q = rename pf host q.same_process q.manifest q.action q.observation

  -- The keys that the calls rename durably, whatever calls fail in between.
  unfoldable pub renamed_keys : List Request → RenameState → List Key
  renamed_keys [] s = []
  renamed_keys (q ∷ qs) s =
      let (r, s') = serve q s in let later = renamed_keys qs s' in durable_key r ++ later

abbrev request_key : Request → Key
request_key q = (q.manifest.manifest_id, q.action.action_id)

abbrev Unknown : List Key → Key → Type 0
Unknown keys k = any (key_eq k) keys ≡ false

abbrev keys_of : RenameState → List Key
keys_of s = s.session.attempted_keys

-- What one call does to the keys, for what it renames durably.
abbrev Stepped : Key → RenameState → Result Exn RenameResult → RenameState → Type 0
Stepped key s r s' =
    ((durable_key r ≡ []) × ((keys_of s' ≡ keys_of s) ⊎ (keys_of s' ≡ key ∷ keys_of s)))
    ⊎ ((durable_key r ≡ key ∷ []) × Unknown (keys_of s) key × (keys_of s' ≡ key ∷ keys_of s))

key_eq-sym : (k l : Key) → key_eq k l ≡ key_eq l k
key_eq-sym k l = rw (equal-sym k.0 l.0, equal-sym k.1 l.1) refl

-- What knows of fewer keys has more that are unknown.
forget : (key : Key) (keys ks : List Key) → All (Unknown (key ∷ keys)) ks → All (Unknown keys) ks
forget key keys [] h = tt
forget key keys (k ∷ ks) (h, hs) = ((or_split (key_eq k key) _ h).1, forget key keys ks hs)

apart :
    (key : Key) (keys ks : List Key) → All (Unknown (key ∷ keys)) ks → any (key_eq key) ks ≡ false
apart key keys [] h = refl
apart key keys (k ∷ ks) (h, hs) =
    rw (key_eq-sym key k, (or_split (key_eq k key) _ h).0, apart key keys ks hs) refl

OnceFor : List Key → List Key → Type 0
OnceFor keys ks = (distinct key_eq ks ≡ true) × All (Unknown keys) ks

joined :
    (key : Key) (s : RenameState) (r : Result Exn RenameResult) (s' : RenameState) (ks : List Key)
    → Stepped key s r s'
    → OnceFor (keys_of s') ks
    → OnceFor (keys_of s) (durable_key r ++ ks)
unfolding OnceFor
joined key s r s' ks (inl (is, inl same)) (h, hs) = rw is (h, rw same at hs)
joined key s r s' ks (inl (is, inr more)) (h, hs) =
    rw is (h, forget key (keys_of s) ks (rw more at hs))
joined key s r s' ks (inr (is, first, more)) (h, hs) = rw is (
  rw (apart key (keys_of s) ks (rw more at hs)) h,
  (first, forget key (keys_of s) ks (rw more at hs)),
)

module _ (pf : Platform) (host : Host) where
  stepped :
      (q : Request) (s : RenameState) (r : Result Exn RenameResult) (s' : RenameState)
      → Outcome
          (Finished pf host s q.manifest q.action)
          (λ e t. KeysGrown pf host s q.manifest q.action t)
          (r, s')
      → Stepped (request_key q) s r s'
  stepped q s (err e) s' grown = inl (refl, grown)
  stepped q s (ok r) s' h = elim h.landed [
    | inl (keep, is, (k, i, d)) ↦
        inl (ap (λ r. durable_key (ok r)) is, inl (ap (λ (z : Session). z.attempted_keys) i))
    | inr done ↦ inr (
      ap (λ r. durable_key (ok r)) done.result,
      h.first,
      ap (λ (z : Session). z.attempted_keys) done.synced.session,
    )
  ]

  renamed_once :
      (qs : List Request) (s : RenameState) → OnceFor (keys_of s) (renamed_keys pf host qs s)
  unfolding OnceFor renamed_keys
  renamed_once [] s = (refl, tt)
  renamed_once (q ∷ qs) s =
      let (r, s') = serve pf host q s in
      joined (request_key q) s r s' _
        (stepped q s r s' (
          outcome_after _ (Finished pf host s q.manifest q.action) _
            (λ e t. KeysGrown pf host s q.manifest q.action t) r s' (λ r t h. h) (λ e t h. h.0)
            (rename-Finished pf host s q.manifest q.action q.same_process q.observation)))
        (renamed_once qs s')

  -- Over any run of calls on a session, whatever the calls raise and whatever files they name, no key
  -- of a manifest and an action is renamed durably twice, and none that the session had attempted.
  pub renamed_keys-distinct :
      (qs : List Request) (s : RenameState)
      → (distinct key_eq (renamed_keys pf host qs s) ≡ true)
        × All (λ k. any (key_eq k) s.session.attempted_keys ≡ false) (renamed_keys pf host qs s)
  unfolding OnceFor
  renamed_keys-distinct qs s = renamed_once qs s
