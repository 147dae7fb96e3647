-- ===== src/Prettify/Tabs.antt =====
-- `makeTabExpander`: the closure's `charInLine` is an argument and part of the result.
pub mod Columns
pub mod Laws
pub mod Returns
use mathlib.Core.List.{flatten}
use mathlib.Core.Option
use java_study_project.Base.{
  ℕ, zero, suc, ◌+◌, ◌-◌, ◌%◌, Option, none, some, List, [], ◌∷◌, ◌++◌, leb, ◌==◌, if◌then◌else◌,
  drop, replicate,
}
use java_study_project.Text.{Text, substring}

-- The sixteen blanks of `SPACES`.
abbrev pub spaces : Text
spaces = replicate 16 b' '

-- `for (; nSpaces >= 0; nSpaces -= SPACES.length)`: the pieces that are pushed, with fuel.
unfoldable pub padding : ℕ → ℕ → List Text
padding zero n_spaces = []
padding (suc f) n_spaces =
    let rest = padding f (n_spaces - 16) in
    substring spaces 0 n_spaces ∷ (if leb 16 n_spaces then rest else [])

-- The variables of the loop. `out` is `none` until the first tab.
pub record Expansion : Type 0 where
  pub out : Option (List Text)
  pub pos : ℕ
  pub char_in_line : ℕ

-- One round of the loop: the character `ch` stands at index `i` of `plain_text`. The tab width is not 0,
-- for which the script computes with NaN.
unfoldable pub expand_char : ℕ → Text → ℕ → ℕ → Expansion → Expansion
unfolding padding
expand_char tab_width plain_text i ch e =
    if ch == b'\t'
    then (let n_spaces = tab_width - e.char_in_line % tab_width in
        record {
          out = some (
              Option.get_or e.out []
              ++ substring plain_text e.pos i ∷ padding (n_spaces + 1) n_spaces);
          pos = i + 1;
          char_in_line = e.char_in_line + n_spaces;
        })
    else if ch == b'\n'
    then record e { char_in_line = 0 }
    else record e { char_in_line = e.char_in_line + 1 }

unfoldable pub expand_loop : ℕ → Text → ℕ → Text → Expansion → Expansion
unfolding expand_char
expand_loop tab_width plain_text i [] e = e
expand_loop tab_width plain_text i (ch ∷ rest) e =
    expand_loop tab_width plain_text (i + 1) rest (expand_char tab_width plain_text i ch e)

abbrev pub join_out : Text → Option (List Text) → ℕ → Text
join_out plain_text none pos = plain_text
join_out plain_text (some out) pos = flatten (out ++ drop pos plain_text ∷ [])

-- A call of the closure: the expanded text, and `charInLine` for the next call.
unfoldable pub tab_expander : ℕ → ℕ → Text → Text × ℕ
unfolding expand_loop
tab_expander tab_width char_in_line plain_text =
    let e =
      expand_loop tab_width plain_text 0 plain_text
        (record { out = none; pos = 0; char_in_line = char_in_line }) in
    (join_out plain_text e.out e.pos, e.char_in_line)
