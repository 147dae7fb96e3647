-- ===== src/Prettify/Tabs/Columns.antt =====
-- Where the expanded text stands on its lines.
use java_study_project.Base.{
  ℕ, zero, suc, ◌+◌, ◌-◌, ◌%◌, ◌<◌, ◌≡◌, ◌≢◌, refl, ap, ◌∙◌, arith, [], ◌∷◌, ◌++◌, append_assoc,
  ◌==◌, if◌then◌else◌, replicate, All-append, Bool-cases, inl, inr,
}
use java_study_project.Text.{Text, Lacks}
use java_study_project.Prettify.Tabs.{tab_expander}
use java_study_project.Prettify.Tabs.Laws.{next_column, column_after, expanded, tab_expander_lem}

-- The column at the end of a text that holds no tab.
end_column : ℕ → Text → ℕ
end_column col [] = col
end_column col (ch ∷ s) = end_column (if ch == b'\n' then 0 else col + 1) s

end_column-append :
    (col : ℕ) (s t : Text) → end_column col (s ++ t) ≡ end_column (end_column col s) t
unfolding end_column
end_column-append col [] t = refl
end_column-append col (ch ∷ s) t = end_column-append (if ch == b'\n' then 0 else col + 1) s t

end_column-replicate : (n col : ℕ) → end_column col (replicate n b' ') ≡ col + n
unfolding end_column
end_column-replicate zero col = omega arith
end_column-replicate (suc n) col = omega (arith, end_column-replicate n (col + 1))

column_step :
    (w col ch : ℕ)
    → end_column col (if ch == b'\t' then replicate (w - col % w) b' ' else ch ∷ [])
      ≡ next_column w col ch
unfolding next_column end_column
column_step w col ch = elim (Bool-cases (ch == b'\t')) [
  | inl t ↦ rw t (unfold end_column in end_column-replicate (w - col % w) col)
  | inr n ↦ rw n
]

end_column-expanded :
    (w col : ℕ) (s : Text) → end_column col (expanded w col s) ≡ column_after w col s
unfolding expanded column_after
end_column-expanded w col [] = unfold end_column in refl
end_column-expanded w col (ch ∷ s) =
    end_column-append col (if ch == b'\t' then replicate (w - col % w) b' ' else ch ∷ [])
      (expanded w (next_column w col ch) s)
    ∙ ap (λ c. end_column c (expanded w (next_column w col ch) s)) (column_step w col ch)
    ∙ end_column-expanded w (next_column w col ch) s

replicate-Lacks : (n : ℕ) → Lacks b'\t' (replicate n b' ')
replicate-Lacks zero = tt
replicate-Lacks (suc n) = (omega arith, replicate-Lacks n)

char-Lacks : (n ch : ℕ) → Lacks b'\t' (if ch == b'\t' then replicate n b' ' else ch ∷ [])
char-Lacks n ch = elim (Bool-cases (ch == b'\t')) [
  | inl t ↦ rw t (replicate-Lacks n)
  | inr k ↦ rw k (ground arith)
]

expanded-Lacks : (w col : ℕ) (s : Text) → Lacks b'\t' (expanded w col s)
unfolding expanded
expanded-Lacks w col [] = tt
expanded-Lacks w col (ch ∷ s) =
    All-append (λ c. c ≢ b'\t') (if ch == b'\t' then replicate (w - col % w) b' ' else ch ∷ [])
      (expanded w (next_column w col ch) s) (char-Lacks (w - col % w) ch)
      (expanded-Lacks w (next_column w col ch) s)

-- A call leaves no tab in its text, and the column that it keeps for the next call is the one at
-- which the text that it wrote ends.
tab_expander-end_column :
    (w col : ℕ) (s : Text)
    → Lacks b'\t' (tab_expander w col s).0
      × (end_column col (tab_expander w col s).0 ≡ (tab_expander w col s).1)
tab_expander-end_column w col s =
    rw tab_expander_lem (expanded-Lacks w col s, end_column-expanded w col s)

expanded-append :
    (w col : ℕ) (s t : Text)
    → expanded w col (s ++ t) ≡ expanded w col s ++ expanded w (column_after w col s) t
unfolding expanded column_after
expanded-append w col [] t = refl
expanded-append w col (ch ∷ s) t =
    rw (expanded-append w (next_column w col ch) s t) (simp append_assoc)

column_after-append :
    (w col : ℕ) (s t : Text) → column_after w col (s ++ t) ≡ column_after w (column_after w col s) t
unfolding column_after
column_after-append w col [] t = refl
column_after-append w col (ch ∷ s) t = column_after-append w (next_column w col ch) s t

-- A text may be fed in two chunks: the second call goes on where the first one stopped.
pub tab_expander-append :
    (w col : ℕ) (s t : Text)
    → let (first, mid) = tab_expander w col s in
      let (second, end) = tab_expander w mid t in
      tab_expander w col (s ++ t) ≡ (first ++ second, end)
tab_expander-append w col s t = simp (tab_expander_lem, expanded-append, column_after-append)

-- A tab moves on to a column that the width divides.
pub next_column-mod : (w col : ℕ) → 0 < w → next_column w col b'\t' % w ≡ 0
unfolding next_column
next_column-mod w col h = grind arith
