-- ===== src/Events/Guids.antt =====
-- A guid belongs to one handler, so that handlers do not displace one another.
use java_study_project.Base.{
  ℕ, ◌<◌, ◌≡◌, ◌≢◌, refl, sym, ap, ◌∙◌, arith, true, false, Option, none, some, [], ◌∷◌, ◌==◌,
  ==_iff, if◌then◌else◌, inl, inr, Bool-cases,
}
use java_study_project.Text.{Text}
use java_study_project.Text.Search.{eq_text_refl}
use java_study_project.Events.{
  own, HandlerTable, Page, lookup, delete, set_at, assign_guid, add_event, delete_from, find,
}

-- The guids given so far are below the counter, and no two handlers share one.
pub record IsUnique (p : Page) : Type 0 where
  pub counts : 0 < p.next_guid
  pub below : (h : ℕ) → p.guid_of h < p.next_guid
  pub apart : (h k : ℕ) → p.guid_of h ≢ 0 → p.guid_of h ≡ p.guid_of k → h ≡ k

abbrev fresh : ℕ → ℕ → (ℕ → ℕ) → ℕ → ℕ
fresh handler next guid_of h = if h == handler then next else guid_of h

fresh-apart :
    (p : Page) (handler h k : ℕ)
    → IsUnique p
    → fresh handler p.next_guid p.guid_of h ≢ 0
    → fresh handler p.next_guid p.guid_of h ≡ fresh handler p.next_guid p.guid_of k
    → h ≡ k
fresh-apart p handler h k u n s = elim (Bool-cases (h == handler)) [
  | inl a ↦ elim (Bool-cases (k == handler)) [
    | inl b ↦ (==_iff h handler).0 a ∙ sym ((==_iff k handler).0 b)
    | inr b ↦
        let e : p.next_guid ≡ p.guid_of k = rw (a, b) at s in absurd (omega (arith, e, u.below k))
  ]
  | inr a ↦ elim (Bool-cases (k == handler)) [
    | inl b ↦
        let e : p.guid_of h ≡ p.next_guid = rw (a, b) at s in absurd (omega (arith, e, u.below h))
    | inr b ↦ u.apart h k (rw a at n) (rw (a, b) at s)
  ]
]

pub assign_guid-IsUnique : (handler : ℕ) (p : Page) → IsUnique p → IsUnique (assign_guid handler p)
unfolding assign_guid
assign_guid-IsUnique handler p u = elim (Bool-cases (p.guid_of handler == 0)) [
  | inr e ↦ rw e u
  | inl e ↦ rw e (record {
    counts = omega (arith, u.counts);
    below = λ h. ground (arith, u.below h, u.counts);
    apart = λ h k n s. fresh-apart p handler h k u n s;
  })
]

assign_guid-positive :
    (handler : ℕ) (p : Page) → IsUnique p → (assign_guid handler p).guid_of handler ≢ 0
unfolding assign_guid
assign_guid-positive handler p u = elim (Bool-cases (p.guid_of handler == 0)) [
  | inr e ↦ rw e (ground arith)
  | inl e ↦
      let same : (handler == handler) ≡ true = ground arith in
      rw (e, same) (omega (arith, u.counts))
]

pub assign_guid-events :
    (handler : ℕ) (p : Page) (element : ℕ) (kind : Text)
    → (assign_guid handler p).events element kind ≡ p.events element kind
unfolding assign_guid
assign_guid-events handler p element kind = elim (Bool-cases (p.guid_of handler == 0)) [
  | inl e ↦ rw e
  | inr e ↦ rw e
]

assign_guid_other :
    (handler other : ℕ) (p : Page)
    → (other == handler) ≡ false
    → (assign_guid handler p).guid_of other ≡ p.guid_of other
unfolding assign_guid
assign_guid_other handler other p e = elim (Bool-cases (p.guid_of handler == 0)) [
  | inl z ↦ rw (z, e)
  | inr z ↦ rw z
]

-- Only the handler that is added gets a guid.
pub assign_guid-guid_of :
    (handler other : ℕ) (p : Page)
    → (assign_guid handler p).guid_of other
      ≡ (if other == handler then (assign_guid handler p).guid_of handler else p.guid_of other)
assign_guid-guid_of handler other p = elim (Bool-cases (other == handler)) [
  | inl e ↦ rw e (ap (assign_guid handler p).guid_of ((==_iff other handler).0 e))
  | inr e ↦ rw e (assign_guid_other handler other p e)
]

-- The handler that was found under its own guid.
abbrev pub IsAdded : ℕ → Text → ℕ → Page → Type 0
IsAdded element kind handler p =
    (p.guid_of handler ≢ 0)
    × (find (p.guid_of handler) (p.events element kind) ≡ some (own handler))

==_refl : (n : ℕ) → (n == n) ≡ true
==_refl n = ground arith

pub set_at-own :
    {A : Type 0} (element : ℕ) (kind : Text) (new : A) (old : ℕ → Text → A)
    → set_at element kind new old element kind ≡ new
set_at-own element kind new old =
    let e : (element == element) ≡ true = ground arith in rw (e, eq_text_refl)

lookup-delete : (g : ℕ) (handlers : HandlerTable) → lookup g (delete g handlers) ≡ none
lookup-delete g [] = refl
lookup-delete g ((k, l) ∷ handlers) = elim (Bool-cases (k == g)) [
  | inl e ↦ rw e (lookup-delete g handlers)
  | inr e ↦ rw e (rw e (lookup-delete g handlers))
]

lookup-delete_other :
    (g k : ℕ) (handlers : HandlerTable) → g ≢ k → lookup k (delete g handlers) ≡ lookup k handlers
lookup-delete_other g k [] n = refl
lookup-delete_other g k ((h, l) ∷ handlers) n = elim (Bool-cases (h == g)) [
  | inl e ↦
      let other : (h == k) ≡ false = ground arith in
      rw (e, other) (lookup-delete_other g k handlers n)
  | inr e ↦ rw e (elim (Bool-cases (h == k)) [
    | inl b ↦ rw b
    | inr b ↦ rw b (lookup-delete_other g k handlers n)
  ])
]

pub find-delete_from :
    (g : ℕ) (handlers : Option HandlerTable) → find g (delete_from g handlers) ≡ none
find-delete_from g none = refl
find-delete_from g (some handlers) = lookup-delete g handlers

pub find-delete_from_other :
    (g k : ℕ) (handlers : Option HandlerTable)
    → g ≢ k
    → find k (delete_from g handlers) ≡ find k handlers
find-delete_from_other g k none n = refl
find-delete_from_other g k (some handlers) n = lookup-delete_other g k handlers n

pub add_event-own :
    (element : ℕ) (kind : Text) (handler : ℕ) (p : Page)
    → IsUnique p
    → IsAdded element kind handler (add_event element kind handler p)
unfolding add_event
add_event-own element kind handler p u =
    (assign_guid-positive handler p u, rw (set_at-own element kind, ==_refl))
