-- ===== src/Prettify/Tabs/Returns.antt =====
-- The expander writes no carriage return of its own.

use java_study_project.Base.{
  ℕ, arith, [], ◌∷◌, inl, inr, Bool-cases, All-append, ◌-◌, ◌%◌, ◌≢◌, replicate, zero, suc,
  if◌then◌else◌, ◌==◌,
}
use java_study_project.Text.{Text, Lacks}
use java_study_project.Prettify.Tabs.{tab_expander}
use java_study_project.Prettify.Tabs.Laws.{expanded, next_column, tab_expander_lem}

blanks-Lacks_return : (n : ℕ) → Lacks 0xd (replicate n b' ')
blanks-Lacks_return zero = tt
blanks-Lacks_return (suc n) = (omega arith, blanks-Lacks_return n)

char-Lacks_return :
    (n ch : ℕ) → ch ≢ 0xd → Lacks 0xd (if ch == b'\t' then replicate n b' ' else ch ∷ [])
char-Lacks_return n ch h = elim (Bool-cases (ch == b'\t')) [
  | inl t ↦ rw t (blanks-Lacks_return n)
  | inr k ↦ rw k (h, tt)
]

-- Expanding the tabs writes no carriage return of its own.
expanded-Lacks_return : (w col : ℕ) (s : Text) → Lacks 0xd s → Lacks 0xd (expanded w col s)
unfolding expanded
expanded-Lacks_return w col [] h = tt
expanded-Lacks_return w col (ch ∷ s) (n, h) =
    All-append (λ d. d ≢ 0xd) (if ch == b'\t' then replicate (w - col % w) b' ' else ch ∷ [])
      (expanded w (next_column w col ch) s) (char-Lacks_return (w - col % w) ch n)
      (expanded-Lacks_return w (next_column w col ch) s h)

pub tab_expander-Lacks_return :
    (w col : ℕ) (s : Text) → Lacks 0xd s → Lacks 0xd (tab_expander w col s).0
tab_expander-Lacks_return w col s h = rw tab_expander_lem (expanded-Lacks_return w col s h)
