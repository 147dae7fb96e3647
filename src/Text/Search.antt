-- ===== src/Text/Search.antt =====
-- Laws of `indexOf` and `substring`.
use java_study_project.Base.{
  ℕ, zero, suc, ◌+◌, ◌-◌, ◌≤◌, ◌<◌, min, max, ◌≡◌, refl, true, false, none, some, [], ◌∷◌, ◌++◌,
  arith, length, take, drop, length-take, take-length_append, drop-length_append, length-drop, inl,
  inr, Option-cases,
}
use java_study_project.Text.{
  Text, eq_text, starts_with, index_of, index_of_from, substring, replace_from, replace_all,
}

pub starts_with-length : (pat s : Text) → starts_with pat s ≡ true → length pat ≤ length s
starts_with-length [] s h = omega arith
starts_with-length (p ∷ pat) [] h = cc
starts_with-length (p ∷ pat) (c ∷ s) h = ground (arith, starts_with-length pat s)

-- A match lies inside the text.
pub index_of-bound : (pat s : Text) (k : ℕ) → index_of pat s ≡ some k → k + length pat ≤ length s
index_of-bound pat [] k h = ground (arith, starts_with-length pat [])
index_of-bound pat (c ∷ s) k h = elim (Option-cases (index_of pat s)) [
  | inl e ↦ ground (arith, starts_with-length pat (c ∷ s))
  | inr (j, e) ↦ ground (arith, starts_with-length pat (c ∷ s), index_of-bound pat s j e)
]

pub index_of_from-bound :
    (pat s : Text) (start k : ℕ)
    → 0 < length pat
    → index_of_from pat start s ≡ some k
    → (start ≤ k) × (k + length pat ≤ length s)
index_of_from-bound pat s start k pos h = elim (Option-cases (index_of pat (drop start s))) [
  | inl e ↦ ground arith
  | inr (j, e) ↦ ground (arith, index_of-bound pat (drop start s) j e, length-drop start s)
]

pub length-substring_le : (s : Text) (a b : ℕ) → length (substring s a b) ≤ max a b - min a b
length-substring_le s a b = omega (arith, length-take (max a b - min a b) (drop (min a b) s))

-- A pattern that a text lacks is not at its head, and its rest lacks it.
pub index_of-cons_none :
    (pat : Text) (c : ℕ) (s : Text)
    → index_of pat (c ∷ s) ≡ none
    → (starts_with pat (c ∷ s) ≡ false) × (index_of pat s ≡ none)
index_of-cons_none pat c s h = ground arith

pub index_of-drop : (pat s : Text) (k : ℕ) → index_of pat s ≡ none → index_of pat (drop k s) ≡ none
index_of-drop pat s zero h = h
index_of-drop pat [] (suc k) h = h
index_of-drop pat (c ∷ s) (suc k) h = index_of-drop pat s k (index_of-cons_none pat c s h).1

pub index_of_from-none :
    (pat s : Text) (start : ℕ) → index_of pat s ≡ none → index_of_from pat start s ≡ none
index_of_from-none pat s start h = rw (index_of-drop pat s start h)

-- A text that lacks a character lacks every pattern that begins with it.
pub index_of-longer :
    (p : ℕ) (pat s : Text) → index_of (p ∷ []) s ≡ none → index_of (p ∷ pat) s ≡ none
index_of-longer p pat [] h = refl
index_of-longer p pat (c ∷ s) h =
    let (miss, rest) = index_of-cons_none (p ∷ []) c s h in
    ground (arith, index_of-longer p pat s rest)

-- A pattern that a text lacks is not replaced in it.
pub replace_all-none : (pat rep s : Text) → index_of pat s ≡ none → replace_all pat rep s ≡ s
unfolding replace_from
replace_all-none pat rep [] h = refl
replace_all-none pat rep (c ∷ s) h =
    let (miss, rest) = index_of-cons_none pat c s h in rw (miss, replace_all-none pat rep s rest)

pub substring-zero : (s : Text) (n : ℕ) → substring s 0 n ≡ take n s
substring-zero s n =
    let a : max 0 n - min 0 n ≡ n = omega arith in let b : min 0 n ≡ 0 = omega arith in rw (a, b)

pub substring-middle :
    (a b c : Text) → substring (a ++ (b ++ c)) (length a) (length a + length b) ≡ b
substring-middle a b c =
    let n : max (length a) (length a + length b) - min (length a) (length a + length b) ≡ length b =
      omega arith in
    let m : min (length a) (length a + length b) ≡ length a = omega arith in
    rw (n, m, drop-length_append a (b ++ c), take-length_append b c)

pub eq_text-true : (s t : Text) → eq_text s t ≡ true → s ≡ t
eq_text-true [] [] h = refl
eq_text-true [] (d ∷ t) h = cc
eq_text-true (c ∷ s) [] h = cc
eq_text-true (c ∷ s) (d ∷ t) h = ground (arith, eq_text-true s t)

pub eq_text_refl : (s : Text) → eq_text s s ≡ true
eq_text_refl [] = refl
eq_text_refl (c ∷ s) = ground (arith, eq_text_refl s)
