-- ===== src/Execution/Journal/History/Soundness.antt =====
-- Whatever bytes the file holds, what `_read_history` returns is an admitted history.
use mathlib.Core.Path.{subst}
use anime_db.Base.{
  ℕ, String, ◌≡◌, inl, inr, ok-injective, List, [], ◌∷◌, Result, ok, err, raise_if, >>=-ok, >>-ok,
  Bool-cases, nat_eq, arith, ap,
}
use anime_db.Execution.Platform.{Platform}
use anime_db.Execution.Manifest.{ExecutionManifest, JournalEntry}
use anime_db.Execution.Journal.{post_init, validate_entry}
use anime_db.Execution.Journal.Lifecycle.{Admitted, empty, append}
use anime_db.Execution.Journal.History.{
  Body, header, event, other, Codec, Reader, start, header_of, decode_line, read_event, read_header,
  read_body, read_line, or_reconcile, read_lines, has_header, or_reject, journal_lines, read_bound,
  read_history,
}

module _ (pf : Platform) (codec : Codec) (m : ExecutionManifest) where
  abbrev Read : Reader → Type 0
  Read r = Admitted pf m r.entries r.completed

  read_event-Admitted :
      (r r' : Reader) (b : Body) → read_event pf codec m r b ≡ ok r' → Read r → Read r'
  unfolding read_event
  read_event-Admitted r r' (header _ _ _ _ _) h adm = cc
  read_event-Admitted r r' (other _) h adm = cc
  read_event-Admitted r r' (event s previous entry) h adm =
      let (chained, rest) = >>-ok (raise_if _ _) _ h in
      let (typed, rest') = >>-ok (post_init entry) _ rest in
      let (valid, last) = >>-ok (validate_entry pf m r.entries r.completed entry) _ rest' in
      subst Read (ok-injective _ r' last) (append adm entry valid)

  read_header-Admitted :
      (expected : Body) (r r' : Reader) (b : Body)
      → read_header pf codec expected r b ≡ ok r'
      → Read r
      → Read r'
  unfolding read_header
  read_header-Admitted expected r r' b h adm =
      let (bound, last) = >>-ok (raise_if _ _) _ h in subst Read (ok-injective _ r' last) adm

  read_body-Admitted :
      (expected : Body) (r r' : Reader) (b : Body)
      → read_body pf codec m expected r b ≡ ok r'
      → Read r
      → Read r'
  unfolding read_body
  read_body-Admitted expected r r' b h adm = elim (Bool-cases (nat_eq r.sequence 0)) [
    | inl first ↦ read_header-Admitted expected r r' b (rw first at h) adm
    | inr later ↦ read_event-Admitted r r' b (rw later at h) adm
  ]

  read_line-Admitted :
      (expected : Body) (r r' : Reader) (raw : List ℕ)
      → read_line pf codec m expected r raw ≡ ok r'
      → Read r
      → Read r'
  unfolding read_line
  read_line-Admitted expected r r' raw h adm =
      let (body, decoded, last) = >>=-ok (decode_line pf codec r.sequence raw) _ h in
      read_body-Admitted expected r r' body last adm

  or_reconcile-ok :
      (r r' : Reader) (x : Result String Reader) → or_reconcile pf codec r x ≡ ok r' → x ≡ ok r'
  or_reconcile-ok r r' (ok next) h = ap ok (ok-injective next r' h)
  or_reconcile-ok r r' (err _) h = cc

  read_lines-Admitted :
      (expected : Body) (r r' : Reader) (lines : List (List ℕ))
      → read_lines pf codec m expected r lines ≡ ok r'
      → Read r
      → Read r'
  unfolding read_lines
  read_lines-Admitted expected r r' [] h adm = subst Read (ok-injective r r' h) adm
  read_lines-Admitted expected r r' (raw ∷ rest) h adm =
      let line = read_line pf codec m expected r raw in
      let (next, one, more) = >>=-ok (or_reconcile pf codec r line) _ h in
      read_lines-Admitted expected next r' rest more
        (read_line-Admitted expected r next raw (or_reconcile-ok r next line one) adm)

  has_header-ok :
      (r : Reader) (entries : List JournalEntry)
      → has_header pf codec r ≡ ok entries
      → r.entries ≡ entries
  has_header-ok r entries h = ground arith

  read_bound-Admitted :
      (expected : Body) (content : List ℕ) (entries : List JournalEntry)
      → read_bound pf codec m expected content ≡ ok entries
      → (c : List String) × Admitted pf m entries c
  unfolding read_bound
  read_bound-Admitted expected content entries h =
      let lines = journal_lines pf codec content in
      let (r, read, last) = >>=-ok (read_lines pf codec m expected start lines) _ h in
      (
        r.completed,
        subst (λ z. Admitted pf m z r.completed) (has_header-ok r entries last)
            (read_lines-Admitted expected start r lines read empty),
      )

-- Whatever bytes the file holds, a history that `_read_history` returns is one that grew by
-- admitted entries: damaged or forged files cannot present another.
pub read_history-Admitted :
    (pf : Platform) (codec : Codec) (m : ExecutionManifest) (content : List ℕ)
    (entries : List JournalEntry)
    → read_history pf codec m content ≡ ok entries
    → (c : List String) × Admitted pf m entries c
unfolding read_history
read_history-Admitted pf codec m content entries h =
    let (expected, bound, rest) = >>=-ok (or_reject pf codec (header_of pf codec m)) _ h in
    read_bound-Admitted pf codec m expected content entries rest
