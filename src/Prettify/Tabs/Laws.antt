-- ===== src/Prettify/Tabs/Laws.antt =====
-- The expander against a reference that goes character by character.
use mathlib.Core.List.{flatten}
use mathlib.Core.Option
use mathlib.Core.Path.{ap₂}
use java_study_project.Base.{
  ℕ, zero, suc, ◌+◌, ◌-◌, ◌%◌, ◌<◌, ◌≡◌, refl, false, true, ap, ◌∙◌, sym, arith, min, append-nil,
  append_assoc, take-replicate, replicate-append, length-append, flatten-append, drop-length_append,
  Option, none, some, List, [], ◌∷◌, ◌++◌, leb, ◌==◌, if◌then◌else◌, length, replicate, inl, inr,
  Bool-cases,
}
use java_study_project.Text.{Text, substring}
use java_study_project.Text.Search.{substring-zero, substring-middle}
use java_study_project.Prettify.Tabs.{
  spaces, padding, Expansion, expand_char, expand_loop, join_out, tab_expander,
}

-- The column after one character.
unfoldable pub next_column : ℕ → ℕ → ℕ → ℕ
next_column w col ch =
    if ch == b'\t' then col + (w - col % w) else if ch == b'\n' then 0 else col + 1

unfoldable pub column_after : ℕ → ℕ → Text → ℕ
unfolding next_column
column_after w col [] = col
column_after w col (ch ∷ s) = column_after w (next_column w col ch) s

-- Each tab becomes the blanks up to the next column that `w` divides.
unfoldable pub expanded : ℕ → ℕ → Text → Text
unfolding next_column
expanded w col [] = []
expanded w col (ch ∷ s) =
    (if ch == b'\t' then replicate (w - col % w) b' ' else ch ∷ [])
    ++ expanded w (next_column w col ch) s

pub padding-replicate : (f n : ℕ) → n < f → flatten (padding f n) ≡ replicate n b' '
unfolding padding flatten
padding-replicate zero n h = absurd (omega arith)
padding-replicate (suc f) n h = elim (Bool-cases (leb 16 n)) [
  | inl e ↦
      let k : min n 16 + (n - 16) ≡ n = ground arith in
      rw (
        e,
        substring-zero spaces n,
        take-replicate {A = ℕ} n 16 b' ',
        padding-replicate f (n - 16) (ground arith),
        replicate-append {A = ℕ} (min n 16) (n - 16) b' ',
        k,
      )
  | inr e ↦
      let k : min n 16 ≡ n = ground arith in
      rw (e, substring-zero spaces n, take-replicate {A = ℕ} n 16 b' ', append-nil, k)
]

-- What the buffer holds of the text so far, and the part after `pos` that is still to be pushed.
record Covers (plain done pend rest : Text) (e : Expansion) : Type 0 where
  whole : plain ≡ done ++ (pend ++ rest)
  at : e.pos ≡ length done
  fresh : e.out ≡ none → done ≡ []

join_out_lem :
    (plain done pend : Text) (out : Option (List Text)) (pos : ℕ)
    → plain ≡ done ++ pend
    → pos ≡ length done
    → (out ≡ none → done ≡ [])
    → join_out plain out pos ≡ flatten (Option.get_or out []) ++ pend
unfolding flatten
join_out_lem plain done pend none pos whole at fresh = whole ∙ ap (λ d. d ++ pend) (fresh refl)
join_out_lem plain done pend (some out) pos whole at fresh =
    rw (flatten-append, at, whole, drop-length_append done pend, append-nil)

tab_out :
    (w : ℕ) (plain : Text) (ch : ℕ) (e : Expansion) (i : ℕ)
    → (ch == b'\t') ≡ true
    → ((expand_char w plain i ch e).out
        ≡ some (
            Option.get_or e.out []
            ++ substring plain e.pos i
              ∷ padding (w - e.char_in_line % w + 1) (w - e.char_in_line % w)))
      × ((expand_char w plain i ch e).pos ≡ i + 1)
unfolding expand_char
tab_out w plain ch e i t = (rw t, rw t)

plain_out :
    (w : ℕ) (plain : Text) (ch : ℕ) (e : Expansion) (i : ℕ)
    → (ch == b'\t') ≡ false
    → ((expand_char w plain i ch e).out ≡ e.out) × ((expand_char w plain i ch e).pos ≡ e.pos)
unfolding expand_char
plain_out w plain ch e i n = ground arith

next_column_lem :
    (w : ℕ) (plain : Text) (ch : ℕ) (e : Expansion) (i : ℕ)
    → (expand_char w plain i ch e).char_in_line ≡ next_column w e.char_in_line ch
unfolding expand_char next_column
next_column_lem w plain ch e i = ground arith

module _ (w : ℕ) (plain done pend rest : Text) (ch : ℕ) (e : Expansion) (i : ℕ) where
  tab_step :
      (ch == b'\t') ≡ true
      → Covers plain done pend (ch ∷ rest) e
      → i ≡ length done + length pend
      → flatten (Option.get_or (expand_char w plain i ch e).out [])
        ≡ flatten (Option.get_or e.out []) ++ (pend ++ replicate (w - e.char_in_line % w) b' ')
  unfolding flatten
  tab_step t c p =
      let sub : substring plain e.pos i ≡ pend =
        rw (c.whole, c.at, p) (substring-middle done pend (ch ∷ rest)) in
      rw (
        (tab_out w plain ch e i t).0,
        flatten-append,
        sub,
        padding-replicate (w - e.char_in_line % w + 1) (w - e.char_in_line % w) (omega arith),
      )

  -- After a tab everything up to it is pushed.
  tab_Covers :
      (ch == b'\t') ≡ true
      → Covers plain done pend (ch ∷ rest) e
      → i ≡ length done + length pend
      → Covers plain (done ++ (pend ++ ch ∷ [])) [] rest (expand_char w plain i ch e)
  tab_Covers t c p =
      let (out, pos) = tab_out w plain ch e i t in
      record {
        whole = c.whole ∙ simp append_assoc;
        at = rw (pos, length-append, length-append) (omega arith);
        fresh = λ h. cc;
      }

  -- Any other character waits behind `pos`.
  plain-Covers :
      (ch == b'\t') ≡ false
      → Covers plain done pend (ch ∷ rest) e
      → Covers plain done (pend ++ ch ∷ []) rest (expand_char w plain i ch e)
  plain-Covers n c =
      let (out, pos) = plain_out w plain ch e i n in
      record {
        whole = c.whole ∙ simp append_assoc;
        at = pos ∙ c.at;
        fresh = λ h. c.fresh (sym out ∙ h);
      }

expand_loop_text :
    (w : ℕ) (plain done pend rest : Text) (e : Expansion) (i : ℕ)
    → Covers plain done pend rest e
    → i ≡ length done + length pend
    → join_out plain (expand_loop w plain i rest e).out (expand_loop w plain i rest e).pos
      ≡ flatten (Option.get_or e.out []) ++ (pend ++ expanded w e.char_in_line rest)
unfolding expand_loop expanded
expand_loop_text w plain done pend [] e i c p =
    join_out_lem plain done (pend ++ []) e.out e.pos c.whole c.at c.fresh
expand_loop_text w plain done pend (ch ∷ rest) e i c p = elim (Bool-cases (ch == b'\t')) [
  | inl tab ↦
      expand_loop_text w plain (done ++ (pend ++ ch ∷ [])) [] rest (expand_char w plain i ch e)
        (i + 1) (tab_Covers w plain done pend rest ch e i tab c p)
        (rw (length-append, length-append) (omega arith))
      ∙ rw (tab_step w plain done pend rest ch e i tab c p, next_column_lem, tab)
          (simp append_assoc)
  | inr n ↦
      expand_loop_text w plain done (pend ++ ch ∷ []) rest (expand_char w plain i ch e) (i + 1)
        (plain-Covers w plain done pend rest ch e i n c) (rw length-append (omega arith))
      ∙ rw ((plain_out w plain ch e i n).0, next_column_lem, n) (simp append_assoc)
]

expand_loop_column :
    (w : ℕ) (plain rest : Text) (e : Expansion) (i : ℕ)
    → (expand_loop w plain i rest e).char_in_line ≡ column_after w e.char_in_line rest
unfolding expand_loop column_after
expand_loop_column w plain [] e i = refl
expand_loop_column w plain (ch ∷ rest) e i =
    expand_loop_column w plain rest (expand_char w plain i ch e) (i + 1)
    ∙ ap (λ c. column_after w c rest) (next_column_lem w plain ch e i)

-- One call of the closure writes what the reference writes, and leaves the column that the reference
-- reaches, whatever the tab width is, but 0, and the column it starts from.
pub tab_expander_lem :
    (w col : ℕ) (s : Text) → tab_expander w col s ≡ (expanded w col s, column_after w col s)
unfolding tab_expander expanded flatten
tab_expander_lem w col s =
    let e : Expansion = record { out = none; pos = 0; char_in_line = col } in
    ap₂ (λ (t : Text) (c : ℕ). (t, c))
      (expand_loop_text w s [] [] s e 0 (record { whole = refl; at = refl; fresh = λ _. refl })
        (omega arith))
      (expand_loop_column w s s e 0)
