-- ===== src/Prettify/Combine/Groups.antt =====
-- The groups that are left in a rewritten pattern are as many as were counted.
use java_study_project.Base.{
  ℕ, zero, suc, ◌+◌, ◌-◌, ◌≤◌, ◌≡◌, refl, ap, ◌∙◌, arith, Bool, true, false, not, ◌&&◌, List, [],
  ◌∷◌, ◌==◌, if◌then◌else◌, inl, inr, Bool-cases,
}
use java_study_project.Text.{Text, codes, eq_text}
use java_study_project.Text.Search.{eq_text-true}
use java_study_project.Prettify.Combine.{
  is_open, back_reference, captured, has_number, rank_of, largest, new_reference, renumber,
  starts_anchor, remove_anchors, next_index, rewritten_parts,
}

-- How many parts open a group that captures.
unfoldable pub opens : List Text → ℕ
opens [] = 0
opens (p ∷ parts) = (if is_open p then 1 else 0) + opens parts

anchor-not-open : (p : Text) → eq_text p (codes "^") ≡ true → is_open p ≡ false
anchor-not-open p h = let e : p ≡ codes "^" = eq_text-true p (codes "^") h in rw e

opens-remove_anchors : (parts : List Text) → opens (remove_anchors parts) ≡ opens parts
unfolding opens remove_anchors
opens-remove_anchors [] = refl
opens-remove_anchors (p ∷ parts) =
    elim (Bool-cases (eq_text p (codes "^") && not (starts_anchor parts))) [
      | inl h ↦ rw (h, opens-remove_anchors parts, anchor-not-open p (and-left _ _ h))
      | inr h ↦ rw (h, opens-remove_anchors parts)
    ]
  where
    and-left : (a b : Bool) → (a && b) ≡ true → a ≡ true
    and-left true b e = refl
    and-left false b e = cc

new_reference-not-open :
    (base : ℕ) (groups : List ℕ) (i : ℕ) → is_open (new_reference base groups i) ≡ false
unfolding new_reference
new_reference-not-open base groups i = refl

rank_of-next :
    (groups : List ℕ) (i : ℕ)
    → rank_of groups (i + 1) ≡ (if has_number (i + 1) groups then 1 else 0) + rank_of groups i
unfolding rank_of
rank_of-next groups i = let e : i + 1 ≡ suc i = omega arith in rw e

rank_at : (groups : List ℕ) {m n : ℕ} → m ≡ n → rank_of groups m ≡ rank_of groups n
rank_at groups e = ap (rank_of groups) e

pub opens-renumber :
    (base : ℕ) (groups : List ℕ) (i : ℕ) (parts : List Text)
    → opens (renumber base groups i parts) + rank_of groups i ≡ rank_of groups (i + opens parts)
unfolding opens renumber
opens-renumber base groups i [] =
    let e : i ≡ i + 0 = omega arith in
    let z : 0 + rank_of groups i ≡ rank_of groups i = omega arith in z ∙ rank_at groups e
opens-renumber base groups i (p ∷ parts) = elim (Bool-cases (is_open p)) [
  | inl h ↦
      let rest = opens-renumber base groups (i + 1) parts in
      let next = rank_of-next groups i in
      let e : (i + 1) + opens parts ≡ i + (1 + opens parts) = omega arith in
      rw h (elim (Bool-cases (has_number (i + 1) groups)) [
        | inl n ↦ rw (n, h) (omega (arith, rest, rw n at next) ∙ rank_at groups e)
        | inr n ↦ rw n (omega (arith, rest, rw n at next) ∙ rank_at groups e)
      ])
  | inr h ↦
      let rest = opens-renumber base groups i parts in
      let e : i + opens parts ≡ i + (0 + opens parts) = omega arith in
      rw h (elim (Bool-cases (back_reference i p == 0)) [
        | inl n ↦ rw (n, h) (omega (arith, rest) ∙ rank_at groups e)
        | inr n ↦ rw n (omega (arith, rest) ∙ rank_at groups e)
      ])
]

largest-bound : (groups : List ℕ) (n : ℕ) → has_number n groups ≡ true → n ≤ largest groups
unfolding largest
largest-bound [] n h = cc
largest-bound (m ∷ ms) n h = ground (arith, largest-bound ms n)

rank_of-beyond :
    (groups : List ℕ) (k : ℕ)
    → rank_of groups (largest groups + k) ≡ rank_of groups (largest groups)
unfolding rank_of
rank_of-beyond groups zero =
    let e : largest groups + 0 ≡ largest groups = omega arith in rank_at groups e
rank_of-beyond groups (suc k) =
    let e : largest groups + suc k ≡ (largest groups + k) + 1 = omega arith in
    let next = rank_of-next groups (largest groups + k) in
    rank_at groups e ∙ elim (Bool-cases (has_number (largest groups + k + 1) groups)) [
      | inl h ↦ absurd (omega (arith, largest-bound groups (largest groups + k + 1) h))
      | inr h ↦ (rw h at next) ∙ omega (arith, rank_of-beyond groups k)
    ]

largest-captured : (i : ℕ) (parts : List Text) → largest (captured i parts) ≤ i + opens parts
unfolding largest captured opens
largest-captured i [] = omega arith
largest-captured i (p ∷ parts) =
    ground (arith, largest-captured i parts, largest-captured (i + 1) parts)

rank_of-above :
    (groups : List ℕ) (n : ℕ)
    → largest groups ≤ n
    → rank_of groups n ≡ rank_of groups (largest groups)
rank_of-above groups n h =
    let e : n ≡ largest groups + (n - largest groups) = omega arith in
    rank_at groups e ∙ rank_of-beyond groups (n - largest groups)

-- The counter of captured groups grows by exactly the groups that still capture in the pattern as it
-- was rewritten; a pattern without back references is left with none.
pub opens-rewritten_parts :
    (base : ℕ) (parts : List Text)
    → (base + opens (rewritten_parts base parts) ≡ next_index base parts)
      × (captured 0 parts ≡ [] → opens (rewritten_parts base parts) ≡ 0)
unfolding rewritten_parts next_index rank_of
opens-rewritten_parts base parts =
    let groups = captured 0 parts in
    let left = opens-remove_anchors (renumber base groups 0 parts) in
    let count = opens-renumber base groups 0 parts in
    let top = rank_of-above groups (0 + opens parts) (largest-captured 0 parts) in
    let none_left : captured 0 parts ≡ [] → rank_of groups (largest groups) ≡ 0 =
      λ e. rw e (unfold largest in refl) in
    (omega (arith, left, count, top), λ e. omega (arith, left, count, top, none_left e))
