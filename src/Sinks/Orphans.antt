-- ===== src/Sinks/Orphans.antt =====
-- What becomes of the metrics of a sink that the reaper erases.
use rmond_drs.Base.{
  ℕ, ◌≡◌, refl, sym, ◌∙◌, ◌==◌, Bool, true, false, if◌then◌else◌, List, [], ◌∷◌, Option, none, some,
  arith, Option-cases, Bool-cases, inl, inr, subst, length,
}
use rmond_drs.Oid.{IndexOrder}
use rmond_drs.Container.{Memory}
use rmond_drs.Tuple.{Tuple}
use rmond_drs.Table.{lock, range}
use rmond_drs.Table.Laws.{IsValid, range-Longer}
use rmond_drs.SinkTable.{Sink}
use rmond_drs.Session.{positive}
use rmond_drs.Table.Lookup.{Longer}
use rmond_drs.Sinks.{World, reap, erase_all, reap_one, reap_all, reaper_do}
use rmond_drs.Sinks.Reaping.{reap_one-After, reap_one-none, reap_one-some, survivor}

module _ ⦃o : IndexOrder⦄ where
  -- Each metric's index is longer than the index of each sink.
  abbrev pub Apart : World → Type 0
  Apart w =
      (id : ℕ) (y : Tuple Sink)
      → lock id w.sinks.rows ≡ some y
      → Longer (length y.key) w.metrix.rows

  reap-metrix :
      (m : Memory) (w : World) (y : Tuple Sink)
      → range m y.key w.metrix ≡ []
      → (reap m y w).metrix ≡ w.metrix
  unfolding reap
  reap-metrix m w y e = rw (e) (unfold erase_all in refl)

  module _ (m : Memory) (a : m.array ≡ true) (h : m.header ≡ true) where
    reap_one-metrix :
        (id : ℕ) (w : World)
        → IsValid w.metrix
        → Apart w
        → (reap_one m id (lock id w.sinks.rows) w).0.metrix ≡ w.metrix
    reap_one-metrix id w v f = elim (Option-cases (lock id w.sinks.rows)) [
      | inl e ↦ rw (reap_one-none m id w e) refl
      | inr (y, e) ↦ elim (Bool-cases (positive y.cells.acks)) [
        | inl p ↦ rw (reap_one-some m id w y e, p) refl
        | inr p ↦
            rw (reap_one-some m id w y e, p)
              (reap-metrix m w y (range-Longer m y.key w.metrix v (f id y e) a h))
      ]
    ]

    survived : (l : Option (Tuple Sink)) (y : Tuple Sink) → survivor l ≡ some y → l ≡ some y
    survived none y e = ground arith
    survived (some t) y e = ground arith

    was_there :
        (b : Bool) (after before : Option (Tuple Sink)) (y : Tuple Sink)
        → after ≡ (if b then survivor before else before)
        → after ≡ some y
        → before ≡ some y
    was_there true after before y e d = survived before y (sym e ∙ d)
    was_there false after before y e d = sym e ∙ d

    reap_all-metrix :
        (ids : List ℕ) (w : World)
        → IsValid w.sinks
        → IsValid w.metrix
        → Apart w
        → (reap_all m ids w).0.metrix ≡ w.metrix
    unfolding reap_all
    reap_all-metrix [] w v u f = refl
    reap_all-metrix (id ∷ ids) w v u f =
        let one = reap_one m id (lock id w.sinks.rows) w in
        let e = reap_one-metrix id w u f in
        reap_all-metrix ids one.0 (reap_one-After m id id w v).0 (subst IsValid (sym e) u) (λ j y d.
          subst (λ t. Longer (length y.key) t.rows) (sym e)
            (f j y (
              was_there (id == j) (lock j one.0.sinks.rows) (lock j w.sinks.rows) y
                (reap_one-After m id j w v).1 d)))
        ∙ e

    -- In valid tables where each metric's index is longer than the index of each sink, a round of the
    -- reaper, of which no allocation fails, erases no metric: those of an erased sink stay.
    reaper_do-metrix :
        (w : World)
        → IsValid w.sinks
        → IsValid w.metrix
        → Apart w
        → (reaper_do m w).metrix ≡ w.metrix
    unfolding reaper_do
    reaper_do-metrix w v u f = reap_all-metrix w.tracked w v u f
