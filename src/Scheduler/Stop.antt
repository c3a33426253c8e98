-- ===== src/Scheduler/Stop.antt =====
-- What a stop ends.
use rmond_drs.Base.{ℕ, ◌≡◌, refl, ◌∙◌, true, false, arith}
use rmond_drs.Scheduler.{World, push, stop, begin, put_back, expire}
use rmond_drs.Scheduler.Steps.{
  Step, pushes, stops, ticks, begins, wakes, returns, times_out, finishes, Reach, here, next,
}
use rmond_drs.Scheduler.Invariant.{Inv}

module _ {J : Type 0} where
  Step-stopped :
      {u w : World J}
      → Step u w
      → (u.held ≡ false) × (u.consumer ≡ 0)
      → (w.held ≡ false) × (w.consumer ≡ 0) × (w.ran ≡ u.ran)
  unfolding push stop begin put_back expire
  Step-stopped (pushes w when_ job) h = ground arith
  Step-stopped (stops w) h = ground arith
  Step-stopped (ticks w t e) h = ground arith
  Step-stopped (begins w p) h = ground arith
  Step-stopped (wakes w p) h = ground arith
  Step-stopped (returns w x p) h = ground arith
  Step-stopped (times_out w x p d) h = ground arith
  Step-stopped (finishes w x p) h = ground arith

  Reach-stopped :
      (w : World J)
      → (w.held ≡ false) × (w.consumer ≡ 0)
      → {v : World J} → Reach w v
      → (v.held ≡ false) × (v.consumer ≡ 0) × (v.ran ≡ w.ran)
  Reach-stopped w h here = (h.0, h.1, refl)
  Reach-stopped w h (next r s) =
      let a = Reach-stopped w h r in let b = Step-stopped s (a.0, a.1) in (b.0, b.1, b.2 ∙ a.2)

  stop_drops :
      (w : World J)
      → Inv w
      → ((stop w).held ≡ false) × ((stop w).consumer ≡ 0) × ((stop w).ran ≡ w.ran)
  unfolding stop
  stop_drops w i = ground (arith, i.tied)

  push_refused : (when_ : ℕ) (job : J) (w : World J) → w.consumer ≡ 0 → push when_ job w ≡ (w, true)
  unfolding push
  push_refused when_ job w h = ground arith

  -- Once `stop` has been called on a scheduler with the invariant, no further job is ever started,
  -- whatever steps follow, and pushes are refused.
  pub stop_final :
      (w : World J) (when_ : ℕ) (job : J)
      → Inv w
      → {v : World J} → Reach (stop w) v
      → (v.ran ≡ w.ran) × (push when_ job v ≡ (v, true))
  stop_final w when_ job i {v} r =
      let d = stop_drops w i in
      let a = Reach-stopped (stop w) (d.0, d.1) r in (a.2 ∙ d.2, push_refused when_ job v a.1)
