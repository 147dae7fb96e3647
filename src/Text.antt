-- ===== src/Text.antt =====
-- JavaScript strings as lists of UTF-16 code units, and the methods of `String` that the scripts call.
pub mod Replace
pub mod Number
pub mod Search
pub mod Split
use Prim.Native.Char.{code}
use java_study_project.Base.{
  ℕ, zero, suc, ◌+◌, ◌-◌, min, max, String, Bool, true, false, ◌&&◌, Option, none, some, List, [],
  ◌∷◌, ◌++◌, ◌==◌, if◌then◌else◌, length, take, drop, All, ◌≢◌,
}
use mathlib.Core.Option

abbrev pub Text : Type 0
Text = List ℕ

-- The code units of a literal (ASCII).
abbrev pub codes : String → Text
codes String.[] = []
codes (String.◌∷◌ c s) = code c ∷ codes s

abbrev pub eq_text : Text → Text → Bool
eq_text [] [] = true
eq_text [] (d ∷ t) = false
eq_text (c ∷ s) [] = false
eq_text (c ∷ s) (d ∷ t) = c == d && eq_text s t

abbrev pub starts_with : Text → Text → Bool
starts_with [] s = true
starts_with (p ∷ pat) [] = false
starts_with (p ∷ pat) (c ∷ s) = c == p && starts_with pat s

-- `hay.indexOf(needle)`, `none` for -1.
abbrev pub index_of : Text → Text → Option ℕ
index_of needle [] = if starts_with needle [] then some 0 else none
index_of needle (c ∷ s) =
    if starts_with needle (c ∷ s) then some 0 else Option.map suc (index_of needle s)

-- `hay.indexOf(needle, start)` for a needle that is not empty.
abbrev pub index_of_from : Text → ℕ → Text → Option ℕ
index_of_from needle start hay = Option.map (λ k. start + k) (index_of needle (drop start hay))

-- `s.substring(a, b)`: the smaller index comes first.
abbrev pub substring : Text → ℕ → ℕ → Text
substring s a b = take (max a b - min a b) (drop (min a b) s)

-- `s.replace(/c/g, rep)` for one character `c`.
unfoldable pub replace_char : ℕ → Text → Text → Text
replace_char p rep [] = []
replace_char p rep (c ∷ s) = (if c == p then rep else c ∷ []) ++ replace_char p rep s

-- `s.replace(/pat/g, rep)` for a literal `pat`: the number counts the characters of a match that
-- are still to be skipped.
unfoldable pub replace_from : Text → Text → Text → ℕ → Text
replace_from pat rep [] k = []
replace_from pat rep (c ∷ s) zero =
    let hit = rep ++ replace_from pat rep s (length pat - 1) in
    let miss = c ∷ replace_from pat rep s zero in if starts_with pat (c ∷ s) then hit else miss
replace_from pat rep (c ∷ s) (suc k) = replace_from pat rep s k

abbrev pub replace_all : Text → Text → Text → Text
replace_all pat rep s = replace_from pat rep s 0

-- No character of the text is `c`.
abbrev pub Lacks : ℕ → Text → Type 0
Lacks c = All (λ d. d ≢ c)
