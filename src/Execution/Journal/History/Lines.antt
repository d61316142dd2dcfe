-- ===== src/Execution/Journal/History/Lines.antt =====
-- One frame in front of a file is its first line.
use mathlib.Core.List.{append_assoc}
use anime_db.Base.{
  ℕ, suc, ◌-◌, ◌≤◌, ◌<◌, ◌≡◌, refl, true, false, not, List, [], ◌∷◌, ◌++◌, length, all, last_is,
  nat_eq, leb, arith, and_split, not-true, length-append,
}
use anime_db.Execution.Journal.History.{lines_from}

abbrev pub NoNewline : List ℕ → Type 0
NoNewline line = all (λ c. not (nat_eq c 10)) line ≡ true

pub lines_from-cons :
    (limit room : ℕ) (line rest : List ℕ)
    → NoNewline line
    → length line < room
    → lines_from limit room (line ++ 10 ∷ rest) ≡ (line ++ 10 ∷ []) ∷ lines_from limit limit rest
unfolding lines_from
lines_from-cons limit room [] rest plain fits = refl
lines_from-cons limit room (b ∷ line) rest plain fits =
    let (other, later) = and_split (not (nat_eq b 10)) _ plain in
    let more : leb room 1 ≡ false = ground arith in
    rw (not-true (nat_eq b 10) other)
      (rw more (rw (lines_from-cons limit (room - 1) line rest later (omega arith)) refl))

pub last_is-newline : (line : List ℕ) → last_is (nat_eq 10) (line ++ 10 ∷ []) ≡ true
last_is-newline [] = refl
last_is-newline (b ∷ []) = refl
last_is-newline (b ∷ c ∷ line) = last_is-newline (c ∷ line)

pub lines_from-frame :
    (limit : ℕ) (line rest : List ℕ)
    → NoNewline line
    → length (line ++ 10 ∷ []) ≤ limit
    → lines_from (suc limit) (suc limit) ((line ++ 10 ∷ []) ++ rest)
      ≡ (line ++ 10 ∷ []) ∷ lines_from (suc limit) (suc limit) rest
lines_from-frame limit line rest plain fits = rw append_assoc (
    lines_from-cons (suc limit) (suc limit) line rest plain
      (omega (arith, fits, length-append line (10 ∷ []))))
