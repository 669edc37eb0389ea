-- ===== src/Prelude/Search.antt =====
-- Searching, replacing, joining and splitting texts, as Rust's `str` does it. A place in a text is the
-- pair of what stands before it and what follows.
pub mod Laws
pub mod Order
use Prim.Native.Nat.{ℕ, zero, suc, ◌-◌}
use mathlib.Core.Bool.{Bool, true, false, ◌&&◌, ◌||◌, not}
use mathlib.Core.List.{List, [], ◌∷◌, ◌++◌}
use mathlib.Core.Option.{Option, none, some}
use eal_sync.Prelude.Booleans.{◌==◌, ltb, if◌then◌else◌}
use eal_sync.Prelude.Lists.{length}
use eal_sync.Prelude.Text.{Text, text_eq, starts_with, to_ascii_lowercase, is_whitespace}

-- one more character before the place
abbrev pub shift : ℕ → Option (Text × Text) → Option (Text × Text)
shift c none = none
shift c (some (before, from)) = some (c ∷ before, from)

-- the first place whose rest passes the test; it is never the end of the text
unfoldable pub split_before : (Text → Bool) → Text → Option (Text × Text)
split_before test [] = none
split_before test (c ∷ s) =
    let later = split_before test s in if test (c ∷ s) then some ([], c ∷ s) else shift c later

-- `s.find(p)` for a `p` that is not empty
unfoldable pub find_text : Text → Text → Option (Text × Text)
find_text p s = split_before (starts_with p) s

abbrev pub starts_with_lower : Text → Text → Bool
starts_with_lower p s = starts_with p (to_ascii_lowercase s)

-- `s.to_ascii_lowercase().find(p)`, as a place in `s` itself
unfoldable pub find_lower : Text → Text → Option (Text × Text)
find_lower p s = split_before (starts_with_lower p) s

-- `s.replace(p, by)` for a `p` that is not empty: `skipped` characters belong to the match before
unfoldable pub replace_from : Text → Text → ℕ → Text → Text
replace_from p by skipped [] = []
replace_from p by zero (c ∷ s) =
    let matched = replace_from p by (length p - 1) s in
    let kept = replace_from p by 0 s in if starts_with p (c ∷ s) then by ++ matched else c ∷ kept
replace_from p by (suc skipped) (c ∷ s) = replace_from p by skipped s

unfoldable pub replace : Text → Text → Text → Text
replace p by s = replace_from p by 0 s

-- `parts.join(separator)`
unfoldable pub join_texts : Text → List Text → Text
join_texts separator [] = []
join_texts separator (p ∷ []) = p
join_texts separator (p ∷ q ∷ ps) = p ++ separator ++ join_texts separator (q ∷ ps)

-- `a < b` on `str`: UTF-8 keeps the order of the code points
unfoldable pub text_ltb : Text → Text → Bool
text_ltb [] [] = false
text_ltb [] (b ∷ t) = true
text_ltb (a ∷ s) [] = false
text_ltb (a ∷ s) (b ∷ t) = ltb a b || (a == b && text_ltb s t)

-- `s.split_whitespace()`: a word is ended, the first of the list, by what comes before it
abbrev pub cons_word : Text → List Text → List Text
cons_word [] words = words
cons_word (c ∷ w) words = (c ∷ w) ∷ words

unfoldable pub words_from : Text → Text → List Text
words_from word [] = cons_word word []
words_from word (c ∷ s) =
    let ended = words_from [] s in
    let grown = words_from (word ++ c ∷ []) s in
    if is_whitespace c then cons_word word ended else grown

unfoldable pub split_whitespace : Text → List Text
split_whitespace s = words_from [] s

-- membership in a set of texts
abbrev pub text_in : Text → List Text → Bool
text_in t [] = false
text_in t (s ∷ set) = text_eq t s || text_in t set
