-- ===== src/Execution/Journal/History/Reading.antt =====
-- Reading back what was written, frame by frame.
use mathlib.Core.Path.{subst}
use mathlib.Core.List.{append_assoc}
use anime_db.Base.{
  ℕ, ◌≤◌, String, ◌≡◌, refl, ◌∙◌, sym, true, false, some, List, ◌∷◌, ◌++◌, length, ok, >>-ok,
  raise_if, raise_if-ok, last_is, list_eq, list_eq_iff, ℕ_eq, String_eq, option_eq, option_eq_iff,
  nat_eq, ltb, arith, ltb-false, eq_iff,
}
use text.Mathlib.Text.{◌==◌ as str_eq}
use anime_db.Execution.Platform.{Platform}
use anime_db.Execution.Manifest.{ExecutionManifest}
use anime_db.Execution.Journal.History.{
  Body, sequence_of, Codec, CodecLaws, max_frame_bytes, Reader, frame, raw_of, decode_line,
  read_body, read_line, read_lines, journal_lines,
}
use anime_db.Execution.Journal.History.Lines.{lines_from-frame, last_is-newline}

module _ (pf : Platform) (codec : Codec) (laws : CodecLaws codec) where
  pub frame-ok :
      (b : Body) (raw : List ℕ) (digest : String)
      → frame pf codec b ≡ ok (raw, digest)
      → (raw ≡ raw_of pf codec b)
        × (digest ≡ codec.body_digest b)
        × (length (raw_of pf codec b) ≤ max_frame_bytes)
  unfolding frame
  frame-ok b raw digest h =
      let large = ltb max_frame_bytes (length (raw_of pf codec b)) in
      let (fits, last) = >>-ok (raise_if large _) _ h in
      let small = raise_if-ok large _ fits in (cc, cc, ground (arith, small))

  decode_line-frame :
      (b : Body) (raw : List ℕ) (digest : String) (sequence : ℕ)
      → frame pf codec b ≡ ok (raw, digest)
      → sequence_of b ≡ some sequence
      → decode_line pf codec sequence raw ≡ ok b
  unfolding decode_line
  decode_line-frame b raw digest sequence framed at =
      let (is_raw, is_digest, fits) = frame-ok b raw digest framed in
      let small : ltb max_frame_bytes (length raw) ≡ false = rw is_raw (ltb-false _ _ fits) in
      let ends : last_is (nat_eq 10) raw ≡ true =
        rw is_raw (last_is-newline (codec.dumps b (codec.body_digest b))) in
      let loads : codec.loads raw ≡ some (b, some digest) =
        rw (is_raw, is_digest) (laws.loads-dumps b _) in
      let exact : list_eq nat_eq raw raw ≡ true = (list_eq_iff ℕ_eq raw raw).1 refl in
      let summed : str_eq digest digest ≡ true = (eq_iff digest digest).1 refl in
      let placed : option_eq nat_eq (sequence_of b) (some sequence) ≡ true =
        (option_eq_iff ℕ_eq (sequence_of b) (some sequence)).1 at in
      rw (small, ends, loads, framed, exact, summed, placed)

  module _ (m : ExecutionManifest) (expected : Body) where
    -- Reading goes over `content` from `r` to `r'`, whatever comes behind it.
    abbrev pub ReadsTo : Reader → List ℕ → Reader → Type 0
    ReadsTo r content r' =
        (rest : List ℕ)
        → read_lines pf codec m expected r (journal_lines pf codec (content ++ rest))
          ≡ read_lines pf codec m expected r' (journal_lines pf codec rest)

    pub ReadsTo-append :
        (r r' r'' : Reader) (first second : List ℕ)
        → ReadsTo r first r'
        → ReadsTo r' second r''
        → ReadsTo r (first ++ second) r''
    ReadsTo-append r r' r'' first second one two rest =
        rw append_assoc (one (second ++ rest) ∙ two rest)

    journal_lines-frame :
        (b : Body) (raw : List ℕ) (digest : String) (rest : List ℕ)
        → frame pf codec b ≡ ok (raw, digest)
        → journal_lines pf codec (raw ++ rest) ≡ raw ∷ journal_lines pf codec rest
    unfolding journal_lines
    journal_lines-frame b raw digest rest framed =
        let (is_raw, is_digest, fits) = frame-ok b raw digest framed in
        subst (λ (z : List ℕ). journal_lines pf codec (z ++ rest) ≡ z ∷ journal_lines pf codec rest)
          (sym is_raw)
          (lines_from-frame max_frame_bytes (codec.dumps b (codec.body_digest b)) rest
            (laws.one_line b _) fits)

    read_line-frame :
        (r r' : Reader) (b : Body) (raw : List ℕ) (digest : String)
        → frame pf codec b ≡ ok (raw, digest)
        → sequence_of b ≡ some r.sequence
        → read_body pf codec m expected r b ≡ ok r'
        → read_line pf codec m expected r raw ≡ ok r'
    unfolding read_line
    read_line-frame r r' b raw digest framed at read =
        rw (decode_line-frame b raw digest r.sequence framed at) read

    pub ReadsTo-frame :
        (r r' : Reader) (b : Body) (raw : List ℕ) (digest : String)
        → frame pf codec b ≡ ok (raw, digest)
        → sequence_of b ≡ some r.sequence
        → read_body pf codec m expected r b ≡ ok r'
        → ReadsTo r raw r'
    unfolding read_lines
    ReadsTo-frame r r' b raw digest framed at read rest =
        rw (journal_lines-frame b raw digest rest framed)
          (rw (read_line-frame r r' b raw digest framed at read) refl)
