-- ===== src/Prettify/Page/Batches.antt =====
-- The batches of `prettyPrint` do what one pass over the elements does.
use java_study_project.Base.{
  ℕ, zero, suc, ◌+◌, ◌≤◌, ◌≡◌, refl, sym, ap, ◌∙◌, arith, Option, List, [], ◌∷◌, ltb, length, drop,
  drop-drop, drop-length, length-drop, Bool-cases, inl, inr,
}
use java_study_project.Prettify.Page.{
  Browser, Work, Batch, worked, failed, Walk, waiting, done, stopped, before_end, code_elements,
  visit, next, work_loop, do_work, next_work, resume, walk_on, pretty_print,
}
use java_study_project.Prettify.Document.{Visit, visited, threw, and_then}

module _ {D E : Type 0} (b : Browser D E) where
  -- One pass over elements, each of which is visited once.
  unfoldable pub visit_all : List E → D → Visit D
  unfolding visit
  visit_all [] d = visited d
  visit_all (cs ∷ elements) d = and_then (visit b cs d) (visit_all elements)

  -- How a loop from the index `k` on has to end for its pass to end in `target`.
  abbrev pub IsLoopOf : Visit D → List E → ℕ → Batch D → Type 0
  IsLoopOf target elements k (worked m d) =
      (j : ℕ) × (m ≡ k + j) × (j ≤ length elements) × (target ≡ visit_all (drop j elements) d)
  IsLoopOf target elements k (failed m d) = target ≡ threw d

  IsLoopOf-cons :
      (target : Visit D) (cs : E) (elements : List E) (k : ℕ) (r : Batch D)
      → IsLoopOf target elements (suc k) r
      → IsLoopOf target (cs ∷ elements) k r
  IsLoopOf-cons target cs elements k (worked m d) (j, at, fits, same) =
      (suc j, omega (arith, at), omega (arith, fits), same)
  IsLoopOf-cons target cs elements k (failed m d) h = h

  next-IsLoopOf :
      (v : Visit D) (cs : E) (elements : List E) (k : ℕ) (go_on : D → Batch D)
      → ((d : D) → IsLoopOf (visit_all elements d) elements (suc k) (go_on d))
      → IsLoopOf (and_then v (visit_all elements)) (cs ∷ elements) k (next b v k go_on)
  next-IsLoopOf (visited d) cs elements k go_on h =
      IsLoopOf-cons (visit_all elements d) cs elements k (go_on d) (h d)
  next-IsLoopOf (threw d) cs elements k go_on h = refl

  pub work_loop-IsLoopOf :
      (call : ℕ) (end : Option ℕ) (elements : List E) (k reading : ℕ) (d : D)
      → IsLoopOf (visit_all elements d) elements k (work_loop b call end elements k reading d)
  unfolding work_loop visit_all
  work_loop-IsLoopOf call end [] k reading d = (0, omega arith, omega arith, refl)
  work_loop-IsLoopOf call end (cs ∷ elements) k reading d =
      elim (Bool-cases (before_end (b.clock call reading) end)) [
        | inl e ↦ rw e (
            next-IsLoopOf (visit b cs d) cs elements k _
              (λ changed. work_loop-IsLoopOf call end elements (suc k) (suc reading) changed))
        | inr e ↦ rw e ((0, omega arith, omega arith, refl))
      ]

  -- The walk has its outcome in `target`: it is what the elements that are left make of the page.
  abbrev pub IsOnTheWay : Visit D → List E → ℕ → D → Type 0
  IsOnTheWay target elements k d = (k ≤ length elements) × (target ≡ visit_all (drop k elements) d)

  abbrev pub IsBatchOf : Visit D → List E → Batch D → Type 0
  IsBatchOf target elements (worked k d) = IsOnTheWay target elements k d
  IsBatchOf target elements (failed k d) = target ≡ threw d

  abbrev pub IsWalkOf : Visit D → List E → Walk D → Type 0
  IsWalkOf target elements (waiting w) = IsOnTheWay target elements w.k w.page
  IsWalkOf target elements (done w) = (w.k ≡ length elements) × (target ≡ visited w.page)
  IsWalkOf target elements (stopped w) = target ≡ threw w.page

  IsLoopOf-IsBatchOf :
      (target : Visit D) (elements : List E) (k : ℕ) (r : Batch D)
      → k ≤ length elements
      → IsLoopOf target (drop k elements) k r
      → IsBatchOf target elements r
  IsLoopOf-IsBatchOf target elements k (worked m d) within (j, at, fits, same) = (
    omega (arith, at, fits, length-drop k elements),
    same
        ∙ ap (λ es. visit_all es d) (drop-drop k j elements)
        ∙ ap (λ n. visit_all (drop n elements) d) (sym at),
  )
  IsLoopOf-IsBatchOf target elements k (failed m d) within h = h

  pub do_work-IsBatchOf :
      (target : Visit D) (elements : List E) (w : Work D)
      → IsOnTheWay target elements w.k w.page
      → IsBatchOf target elements (do_work b elements w)
  unfolding do_work
  do_work-IsBatchOf target elements w (within, same) =
      let h = work_loop-IsLoopOf w.calls _ (drop w.k elements) w.k _ w.page in
      IsLoopOf-IsBatchOf target elements w.k _ within (rw same h)

  resume-IsWalkOf :
      (target : Visit D) (elements : List E) (calls : ℕ) (r : Batch D) (go_on : Work D → Walk D)
      → IsBatchOf target elements r
      → ((w : Work D) → IsOnTheWay target elements w.k w.page → IsWalkOf target elements (go_on w))
      → IsWalkOf target elements (resume b (length elements) calls r go_on)
  unfolding visit_all
  resume-IsWalkOf target elements calls (failed k d) go_on h later = h
  resume-IsWalkOf target elements calls (worked k d) go_on (within, same) later =
      elim (Bool-cases (ltb k (length elements))) [
        | inl e ↦ rw e (later (next_work b calls k d) (within, same))
        | inr e ↦ rw e (
            (
              ground arith,
              same ∙ ap (λ es. visit_all es d) (drop-length k elements (ground arith)),
            ))
      ]

  pub walk_on-IsWalkOf :
      (batches : ℕ) (target : Visit D) (elements : List E) (w : Work D)
      → IsOnTheWay target elements w.k w.page
      → IsWalkOf target elements (walk_on b batches elements w)
  unfolding walk_on
  walk_on-IsWalkOf zero target elements w h = h
  walk_on-IsWalkOf (suc batches) target elements w h =
      resume-IsWalkOf target elements w.calls (do_work b elements w) _
        (do_work-IsBatchOf target elements w h)
        (λ later. walk_on-IsWalkOf batches target elements later)

  -- However the clock cuts the walk into batches, and however many of them were made: what is left to do
  -- makes of the page what one pass over all elements would have made of it, and a walk that is over has
  -- visited them all, or was left by the exception that the one pass is left by.
  pub pretty_print-IsWalkOf :
      (batches : ℕ) (d : D)
      → IsWalkOf (visit_all (code_elements b d) d) (code_elements b d) (pretty_print b batches d)
  unfolding pretty_print
  pretty_print-IsWalkOf batches d =
      walk_on-IsWalkOf batches (visit_all (code_elements b d) d) (code_elements b d) _
        (omega arith, refl)
