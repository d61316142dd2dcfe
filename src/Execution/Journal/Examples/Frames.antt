-- ===== src/Execution/Journal/Examples/Frames.antt =====
-- The codec of the examples, with the laws that the journal relies on.
use anime_db.Base.{
  ℕ, zero, suc, String, ◌≡◌, refl, ap, ◌∙◌, ◌⊎◌, inl, inr, Bool, Option, none, some, List, [], ◌∷◌,
  ◌++◌,
}
use anime_db.Execution.Manifest.{
  State, pending, fs_applied, fs_verified, db_reconciled, complete, failed, JournalEntry,
}
use anime_db.Execution.Journal.History.{Body, header, event, other, Codec, CodecLaws}
use anime_db.Execution.Journal.Examples.Wire.{
  Coder, number, convert, ◌then◌, ◌or◌, optional, boolean, texts,
}

abbrev to_state : ℕ → State
to_state zero = pending
to_state (suc zero) = fs_applied
to_state (suc (suc zero)) = fs_verified
to_state (suc (suc (suc zero))) = db_reconciled
to_state (suc (suc (suc (suc zero)))) = complete
to_state _ = failed

abbrev of_state : State → ℕ
of_state pending = 0
of_state fs_applied = 1
of_state fs_verified = 2
of_state db_reconciled = 3
of_state complete = 4
of_state failed = 5

pub to_state-of_state : (s : State) → to_state (of_state s) ≡ s
to_state-of_state pending = refl
to_state-of_state fs_applied = refl
to_state-of_state fs_verified = refl
to_state-of_state db_reconciled = refl
to_state-of_state complete = refl
to_state-of_state failed = refl

abbrev Flags : Type 0
Flags = Option Bool × (Option Bool × (Option Bool × Option Bool))

abbrev EntryFields : Type 0
EntryFields = String × (String × (ℕ × (State × (Option String × Flags))))

abbrev to_entry : EntryFields → JournalEntry
to_entry (manifest_id, (action_id, (action_index, (state, (failure_code, (a, (b, (c, d)))))))) =
    record {
      manifest_id = manifest_id;
      action_id = action_id;
      action_index = action_index;
      state = state;
      failure_code = failure_code;
      source_intact = a;
      target_absent = b;
      primary_dependencies_clear = c;
      failure_journaled = d;
    }

abbrev of_entry : JournalEntry → EntryFields
of_entry e = (
  e.manifest_id,
  (
    e.action_id,
    (
      e.action_index,
      (
        e.state,
        (
          e.failure_code,
          (e.source_intact, (e.target_absent, (e.primary_dependencies_clear, e.failure_journaled))),
        ),
      ),
    ),
  ),
)

entries : Coder JournalEntry
entries =
    convert to_entry of_entry (λ e. refl)
      (texts
        then texts
        then number
        then convert to_state of_state to_state-of_state number
        then optional texts
        then optional boolean
        then optional boolean
        then optional boolean
        then optional boolean)

abbrev BodyFields : Type 0
BodyFields = (ℕ × (String × (ℕ × (String × String)))) ⊎ ((ℕ × (String × JournalEntry)) ⊎ Option ℕ)

abbrev to_body : BodyFields → Body
to_body (inl (s, (schema, (version, (id, hash))))) = header s schema version id hash
to_body (inr (inl (s, (previous, entry)))) = event s previous entry
to_body (inr (inr s)) = other s

abbrev of_body : Body → BodyFields
of_body (header s schema version id hash) = inl (s, (schema, (version, (id, hash))))
of_body (event s previous entry) = inr (inl (s, (previous, entry)))
of_body (other s) = inr (inr s)

pub to_body-of_body : (b : Body) → to_body (of_body b) ≡ b
to_body-of_body (header s schema version id hash) = refl
to_body-of_body (event s previous entry) = refl
to_body-of_body (other s) = refl

bodies : Coder (Body × String)
unfolding entries
bodies =
    convert to_body of_body to_body-of_body (
      (number then texts then number then texts then texts)
      or ((number then texts then entries) or optional number))
    then texts

-- All but the last byte.
abbrev add_byte : ℕ → List ℕ → List ℕ → List ℕ
add_byte b [] kept = []
add_byte b (c ∷ rest) kept = b ∷ kept

abbrev but_last : List ℕ → List ℕ
but_last [] = []
but_last (b ∷ rest) = add_byte b rest (but_last rest)

but_last-snoc : (bytes : List ℕ) (last : ℕ) → but_last (bytes ++ last ∷ []) ≡ bytes
but_last-snoc [] last = refl
but_last-snoc (b ∷ []) last = refl
but_last-snoc (b ∷ c ∷ bytes) last = ap (λ z. b ∷ z) (but_last-snoc (c ∷ bytes) last)

abbrev loaded : Option ((Body × String) × List ℕ) → Option (Body × Option String)
loaded none = none
loaded (some ((b, digest), rest)) = some (b, some digest)

unfoldable pub codec : Codec
unfolding bodies
codec = record {
  body_digest = λ b. "sum";
  dumps = λ b digest. bodies.put (b, digest) [];
  loads = λ bytes. loaded (bodies.get (but_last bytes));
  manifest_sha256 = λ m. "sum";
}

pub codec_laws : CodecLaws codec
unfolding codec
codec_laws = record {
  one_line = λ b digest. bodies.put-plain (b, digest) [] refl;
  loads-dumps = λ b digest.
      ap (λ z. loaded (bodies.get z)) (but_last-snoc (bodies.put (b, digest) []) 10)
      ∙ ap loaded (bodies.get-put (b, digest) []);
}
