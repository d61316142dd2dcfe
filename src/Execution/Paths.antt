-- ===== src/Execution/Paths.antt =====
-- Relative locators as text (app/target_planner.py), with the parts and parents that `PurePosixPath`
-- gives for a locator with no empty, `.` or `..` part.
use Prim.Native.Char.{Char, code}
use anime_db.Base.{
  ℕ, String, Bool, true, false, not, ◌&&◌, ◌||◌, List, [], ◌∷◌, ◌++◌, map, ltb, nat_eq, all, any,
  if◌then◌else◌, ◌==◌, String_eq,
}

-- `s + t`, by recursion on the first text
unfoldable pub concat : String → String → String
concat String.[] t = t
concat (String.◌∷◌ c s) t = String.◌∷◌ c (concat s t)

-- `path.split('/')`: `split_step` adds one character in front.
unfoldable pub split_step : Char → List String → List String
split_step c [] = (String.◌∷◌ c String.[]) ∷ []
split_step c (part ∷ rest) =
    if nat_eq (code c) b'/' then "" ∷ part ∷ rest else (String.◌∷◌ c part) ∷ rest

unfoldable pub split : String → List String
unfolding split_step
split String.[] = "" ∷ []
split (String.◌∷◌ c s) = split_step c (split s)

-- `'/'.join(parts)`
unfoldable pub join : List String → String
unfolding concat
join [] = ""
join (part ∷ []) = part
join (part ∷ p ∷ rest) = concat part (concat "/" (join (p ∷ rest)))

unfoldable pub has_char : ℕ → String → Bool
has_char n String.[] = false
has_char n (String.◌∷◌ c s) = nat_eq (code c) n || has_char n s

abbrev pub starts_with_slash : String → Bool
starts_with_slash String.[] = false
starts_with_slash (String.◌∷◌ c s) = nat_eq (code c) b'/'

abbrev pub dot_part : String → Bool
dot_part part = part == "" || (part == "." || part == "..")

unfoldable pub relative_locator_safe : String → Bool
unfolding split has_char
relative_locator_safe path =
    not (path == "")
    && (not (starts_with_slash path)
        && (not (has_char 92 path) && all (λ part. not (dot_part part)) (split path)))

-- The parent directories of a locator given by its parts, outermost first, without `.`.
parents_of : List String → List String → List (List String)
parents_of above [] = []
parents_of above (name ∷ []) = []
parents_of above (part ∷ p ∷ rest) =
    let here = above ++ part ∷ [] in here ∷ parents_of here (p ∷ rest)

unfoldable pub parents : String → List String
unfolding parents_of split join
parents path = map join (parents_of [] (split path))

-- Lexicographic order of texts by code points, as Python compares `str`.
unfoldable pub str_lt : String → String → Bool
str_lt String.[] String.[] = false
str_lt String.[] (String.◌∷◌ d t) = true
str_lt (String.◌∷◌ c s) String.[] = false
str_lt (String.◌∷◌ c s) (String.◌∷◌ d t) =
    ltb (code c) (code d) || (nat_eq (code c) (code d) && str_lt s t)

-- `bool(text.strip())`: some character is not white space in the sense of `str.isspace`.
is_space : ℕ → Bool
is_space n =
    (ltb 8 n && ltb n 14)
    || ((ltb 27 n && ltb n 33)
        || (any (nat_eq n) (133 ∷ 160 ∷ 5760 ∷ 8232 ∷ 8233 ∷ 8239 ∷ 8287 ∷ 12288 ∷ [])
            || (ltb 8191 n && ltb n 8203)))

unfoldable pub stripped_nonempty : String → Bool
unfolding is_space
stripped_nonempty String.[] = false
stripped_nonempty (String.◌∷◌ c s) = not (is_space (code c)) || stripped_nonempty s
