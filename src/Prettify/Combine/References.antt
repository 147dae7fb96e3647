-- ===== src/Prettify/Combine/References.antt =====
-- What a back reference is rewritten to.
use mathlib.Core.Path.{subst}
use java_study_project.Base.{
  ==_iff, ℕ, ◌+◌, ◌<◌, ◌≡◌, ◌≢◌, refl, sym, ap, ◌∙◌, arith, Bool, true, false, ◌||◌, List, [], ◌∷◌,
  ◌++◌, ◌==◌, if◌then◌else◌, inl, inr, Bool-cases,
}
use java_study_project.Text.{Text, codes}
use java_study_project.Text.Search.{eq_text-true}
use java_study_project.Text.Number.{number_text}
use java_study_project.Prettify.Combine.{
  is_open, back_reference, captured, has_number, rank_of, new_reference, renumber,
}
use java_study_project.Prettify.Combine.Groups.{opens, opens-renumber}

-- A part that refers back opens no group.
reference-not-open : (i : ℕ) (p : Text) → back_reference i p ≢ 0 → is_open p ≡ false
reference-not-open i p h = elim (Bool-cases (is_open p)) [
  | inl e ↦ let q : p ≡ codes "(" = eq_text-true p (codes "(") e in absurd (h (rw q (ground arith)))
  | inr e ↦ e
]

-- What the two walks do at a part that refers back.
captured-reference :
    (i : ℕ) (p : Text) (qs : List Text)
    → back_reference i p ≢ 0
    → captured i (p ∷ qs) ≡ back_reference i p ∷ captured i qs
unfolding captured
captured-reference i p qs h =
    let z : (back_reference i p == 0) ≡ false = ground arith in
    rw (reference-not-open i p h, z) refl

renumber-reference :
    (base : ℕ) (groups : List ℕ) (i : ℕ) (p : Text) (qs : List Text)
    → back_reference i p ≢ 0
    → renumber base groups i (p ∷ qs) ≡ new_reference base groups i ∷ renumber base groups i qs
unfolding renumber
renumber-reference base groups i p qs h =
    let z : (back_reference i p == 0) ≡ false = ground arith in
    rw (reference-not-open i p h, z) refl

opens-cons :
    (q : Text) (ps : List Text) (i : ℕ)
    → i + opens (q ∷ ps) ≡ (if is_open q then i + 1 else i) + opens ps
unfolding opens
opens-cons q ps i = ground arith

or_right : (a : Bool) {b : Bool} → b ≡ true → (a || b) ≡ true
or_right true e = refl
or_right false e = e

captured-cons :
    (i n : ℕ) (q : Text) (ps : List Text)
    → has_number n (captured (if is_open q then i + 1 else i) ps) ≡ true
    → has_number n (captured i (q ∷ ps)) ≡ true
unfolding captured
captured-cons i n q ps h = elim (Bool-cases (is_open q)) [
  | inl e ↦ rw e (rw e at h)
  | inr e ↦ rw e (elim (Bool-cases (back_reference i q == 0)) [
    | inl z ↦ rw z (rw e at h)
    | inr z ↦ rw z (or_right (back_reference i q == n) (rw e at h))
  ])
]

no_opens : (i : ℕ) → i ≡ i + opens []
unfolding opens
no_opens i = omega arith

-- The group that a back reference names is one of those that stay captured.
captured-has_number :
    (i n : ℕ) (ps qs : List Text) (p : Text)
    → i + opens ps ≡ n
    → back_reference n p ≢ 0
    → has_number (back_reference n p) (captured i (ps ++ p ∷ qs)) ≡ true
captured-has_number i n [] qs p e h =
    let k : i ≡ n = no_opens i ∙ e in
    let d = back_reference n p in
    let same : (d == d) ≡ true = (==_iff d d).1 refl in
    rw (k, captured-reference n p qs h, same) refl
captured-has_number i n (q ∷ ps) qs p e h =
    captured-cons i (back_reference n p) q (ps ++ p ∷ qs) (
      captured-has_number (if is_open q then i + 1 else i) n ps qs p (sym (opens-cons q ps i) ∙ e)
        h)

renumber-append :
    (base : ℕ) (groups : List ℕ) (i : ℕ) (ps qs : List Text)
    → renumber base groups i (ps ++ qs)
      ≡ renumber base groups i ps ++ renumber base groups (i + opens ps) qs
unfolding renumber
renumber-append base groups i [] qs = ap (λ n. renumber base groups n qs) (no_opens i)
renumber-append base groups i (q ∷ ps) qs = rw (opens-cons q ps i) (elim (Bool-cases (is_open q)) [
  | inl e ↦ rw (e, renumber-append base groups (i + 1) ps qs) refl
  | inr e ↦ rw (e, renumber-append base groups i ps qs) refl
])

new_reference_lem :
    (base : ℕ) (groups : List ℕ) (ps : List Text)
    → has_number (opens ps) groups ≡ true
    → new_reference base groups (opens ps)
      ≡ b'\\' ∷ number_text (base + opens (renumber base groups 0 ps))
unfolding new_reference
new_reference_lem base groups ps kept =
    let count = opens-renumber base groups 0 ps in
    let first : rank_of groups 0 ≡ 0 = unfold rank_of in refl in
    let zero_add : 0 + opens ps ≡ opens ps = omega arith in
    let whole : opens (renumber base groups 0 ps) ≡ rank_of groups (opens ps) =
      omega (arith, count, first, ap (rank_of groups) zero_add) in
    rw (kept, whole) refl

-- Where a back reference names the group that was opened last, that group stays captured, and the
-- number that is written is that of the last group which the rewritten pattern has opened, counted on
-- from the patterns before it: the reference still names the same group.
pub renumber-back_reference :
    (base : ℕ) (ps qs : List Text) (p : Text)
    → back_reference (opens ps) p ≡ opens ps
    → 0 < opens ps
    → let groups = captured 0 (ps ++ p ∷ qs) in
      let before = renumber base groups 0 ps in
      (has_number (opens ps) groups ≡ true)
      × (renumber base groups 0 (ps ++ p ∷ qs)
          ≡ before
            ++ (b'\\' ∷ number_text (base + opens before)) ∷ renumber base groups (opens ps) qs)
renumber-back_reference base ps qs p e h =
    let groups = captured 0 (ps ++ p ∷ qs) in
    let before = renumber base groups 0 ps in
    let zero_add : 0 + opens ps ≡ opens ps = omega arith in
    let named : back_reference (opens ps) p ≢ 0 = λ z. omega (arith, sym e ∙ z) in
    let kept : has_number (opens ps) groups ≡ true =
      subst (λ d. has_number d groups ≡ true) e
        (captured-has_number 0 (opens ps) ps qs p zero_add named) in
    (
      kept,
      renumber-append base groups 0 ps (p ∷ qs)
          ∙ ap (λ n. before ++ renumber base groups n (p ∷ qs)) zero_add
          ∙ ap (λ t. before ++ t) (renumber-reference base groups (opens ps) p qs named)
          ∙ ap (λ t. before ++ t ∷ renumber base groups (opens ps) qs)
              (new_reference_lem base groups ps kept),
    )
