-- ===== src/Prettify/Page/Ending.antt =====
-- The walk of `prettyPrint` comes to an end.
use java_study_project.Base.{
  ℕ, zero, suc, ◌+◌, ◌≤◌, ◌<◌, ◌≡◌, ◌≢◌, refl, sym, ap, arith, true, Option, none, some, List, [],
  ◌∷◌, ltb, lt→ltb, ltb→lt, length, drop, length-drop, Bool-cases, inl, inr,
}
use java_study_project.Prettify.Page.{
  Browser, Work, Batch, worked, failed, Walk, waiting, done, stopped, before_end, code_elements,
  visit, end_time, first_reading, next, work_loop, do_work, next_work, resume, walk_on,
  pretty_print,
}
use java_study_project.Prettify.Document.{Visit, visited, threw}
use java_study_project.Prettify.Page.Batches.{
  visit_all, IsLoopOf, work_loop-IsLoopOf, IsOnTheWay, do_work-IsBatchOf, IsWalkOf,
  pretty_print-IsWalkOf,
}

-- What a walk that is over has left.
abbrev pub outcome : {D : Type 0} → Walk D → Option (Visit D)
outcome (waiting w) = none
outcome (done w) = some (visited w.page)
outcome (stopped w) = some (threw w.page)

module _ {D E : Type 0} (b : Browser D E) where
  -- A batch that returns before the end has visited an element at least.
  abbrev pub Advanced : ℕ → ℕ → Batch D → Type 0
  Advanced count k (worked m d) = m < count → k < m
  Advanced count k (failed m d) = Unit

  IsLoopOf-Advanced :
      (count : ℕ) (target : Visit D) (elements : List E) (k : ℕ) (r : Batch D)
      → IsLoopOf b target elements (suc k) r
      → Advanced count k r
  IsLoopOf-Advanced count target elements k (worked m d) (j, at, fits, same) =
      (λ below. omega (arith, at))
  IsLoopOf-Advanced count target elements k (failed m d) h = tt

  next-Advanced :
      (count : ℕ) (v : Visit D) (elements : List E) (k : ℕ) (go_on : D → Batch D)
      → ((d : D) → IsLoopOf b (visit_all b elements d) elements (suc k) (go_on d))
      → Advanced count k (next b v k go_on)
  next-Advanced count (visited d) elements k go_on h =
      IsLoopOf-Advanced count (visit_all b elements d) elements k (go_on d) (h d)
  next-Advanced count (threw d) elements k go_on h = tt

  work_loop-Advanced :
      (call : ℕ) (end : Option ℕ) (elements : List E) (k reading : ℕ) (d : D)
      → before_end (b.clock call reading) end ≡ true
      → Advanced (k + length elements) k (work_loop b call end elements k reading d)
  unfolding work_loop
  work_loop-Advanced call end [] k reading d e = (λ below. omega arith)
  work_loop-Advanced call end (cs ∷ elements) k reading d e = rw e (
      next-Advanced (k + length (cs ∷ elements)) (visit b cs d) elements k _
        (λ changed. work_loop-IsLoopOf b call end elements (suc k) (suc reading) changed))

  -- In every call the second reading of the clock is less than the time of a batch above the first.
  abbrev pub IsFast : Type 0
  IsFast = b.should_use_continuation ≡ true → (call : ℕ) → b.clock call 1 < b.clock call 0 + 250

  fast-before :
      IsFast → (call : ℕ) → before_end (b.clock call (first_reading b)) (end_time b call) ≡ true
  fast-before fast call = elim (Bool-cases b.should_use_continuation) [
    | inl e ↦ let h = fast e call in rw e (lt→ltb _ _ h)
    | inr e ↦ rw e (refl)
  ]

  pub do_work-Advanced :
      (elements : List E) (w : Work D)
      → IsFast
      → w.k ≤ length elements
      → Advanced (length elements) w.k (do_work b elements w)
  unfolding do_work
  do_work-Advanced elements w fast within =
      let count : w.k + length (drop w.k elements) ≡ length elements =
        omega (arith, length-drop w.k elements, within) in
      let h =
        work_loop-Advanced w.calls (end_time b w.calls) (drop w.k elements) w.k (first_reading b)
          w.page (fast-before fast w.calls) in
      rw count at h

  resume-over :
      (elements : List E) (n calls : ℕ) (r : Batch D) (go_on : Work D → Walk D)
      → Advanced (length elements) n r
      → ((k : ℕ) (d : D) → r ≡ worked k d → n < k → outcome (go_on (next_work b calls k d)) ≢ none)
      → outcome (resume b (length elements) calls r go_on) ≢ none
  resume-over elements n calls (failed k d) go_on ahead h = λ n. cc
  resume-over elements n calls (worked k d) go_on ahead h =
      elim (Bool-cases (ltb k (length elements))) [
        | inl e ↦ rw e (h k d refl (ahead (ltb→lt _ _ e)))
        | inr e ↦ rw e (λ n. cc)
      ]

  walk_on-over :
      (batches : ℕ) (target : Visit D) (elements : List E) (w : Work D)
      → IsFast
      → IsOnTheWay b target elements w.k w.page
      → length elements < batches + w.k
      → outcome (walk_on b batches elements w) ≢ none
  unfolding walk_on
  walk_on-over zero target elements w fast (within, same) enough = absurd (omega arith)
  walk_on-over (suc batches) target elements w fast (within, same) enough =
      resume-over elements w.k w.calls (do_work b elements w) (walk_on b batches elements)
        (do_work-Advanced elements w fast within)
        (λ k d returned further.
          let on_way = do_work-IsBatchOf b target elements w (within, same) in
          walk_on-over batches target elements (next_work b w.calls k d) fast
            (rw returned at on_way) (omega arith))

  walk-outcome :
      (target : Visit D) (elements : List E) (result : Walk D)
      → IsWalkOf b target elements result
      → outcome result ≢ none
      → outcome result ≡ some target
  walk-outcome target elements (waiting w) h over = absurd (over refl)
  walk-outcome target elements (done w) (at, same) over = ap some (sym same)
  walk-outcome target elements (stopped w) same over = ap some (sym same)

  -- The walk comes to an end, with what one pass makes of the page: more batches than there are elements
  -- are enough. If batches are used, then in each the first element is begun in time: the second reading
  -- of the clock is less than 250 above the first.
  pub pretty_print-visit_all :
      (batches : ℕ) (d : D)
      → IsFast
      → length (code_elements b d) < batches
      → outcome (pretty_print b batches d) ≡ some (visit_all b (code_elements b d) d)
  unfolding pretty_print
  pretty_print-visit_all batches d fast enough =
      walk-outcome (visit_all b (code_elements b d) d) (code_elements b d)
        (pretty_print b batches d) (pretty_print-IsWalkOf b batches d)
        (walk_on-over batches (visit_all b (code_elements b d) d) (code_elements b d) _ fast
          (omega arith, refl) (omega arith))
