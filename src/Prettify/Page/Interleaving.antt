-- ===== src/Prettify/Page/Interleaving.antt =====
-- Between two calls of `doWork` other scripts run, and may change the page.
use java_study_project.Base.{ℕ, ◌≤◌, ◌≡◌, arith, suc, max, true, List, length, ltb, ltb→lt}
use java_study_project.Prettify.Page.{Browser, Work, worked, do_work, next_work}
use java_study_project.Prettify.Page.Ending.{IsFast, Advanced, do_work-Advanced}

module _ {D E : Type 0} (b : Browser D E) where
  -- What the walk over elements comes to while it waits, from the page on which it began: it begins, a
  -- call of `doWork` returns with elements left, or another script leaves another page.
  pub data Reached (elements : List E) (first : D) : Work D → Type 0 where
    begun : Reached elements first (record { k = 0; calls = 0; page = first })
    call :
        (w : Work D) (k : ℕ) (d : D)
        → Reached elements first w
        → do_work b elements w ≡ worked k d
        → ltb k (length elements) ≡ true
        → Reached elements first (next_work b w.calls k d)
    script :
        (w : Work D) (d : D)
        → Reached elements first w
        → Reached elements first (record w { page = d })

  -- Whatever other scripts make of the page between the calls: while the walk waits there were no more
  -- calls of `doWork` than elements were passed, and with the call that comes next, which may be the last,
  -- there are no more calls than elements, or one if there are none. In each call the clock lets the
  -- first element be visited.
  pub Reached-calls :
      (elements : List E) (first : D) (w : Work D)
      → IsFast b
      → Reached elements first w
      → (w.calls ≤ w.k) × (w.k ≤ length elements) × (suc w.calls ≤ max 1 (length elements))
  Reached-calls elements first _ fast begun = (omega arith, omega arith, omega arith)
  Reached-calls elements first _ fast (script w d r) = Reached-calls elements first w fast r
  Reached-calls elements first _ fast (call w k d r returned left) =
      let (calls, within, next) = Reached-calls elements first w fast r in
      let ahead : Advanced b (length elements) w.k (worked k d) =
        rw returned at (do_work-Advanced b elements w fast within) in
      let below = ltb→lt k (length elements) left in
      (omega (arith, calls, ahead below), omega arith, omega (arith, calls, ahead below, below))
