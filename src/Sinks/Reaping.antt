-- ===== src/Sinks/Reaping.antt =====
-- Which sinks a round of the reaper erases, and which it goes on tracking.
use rmond_drs.Base.{
  ℕ, ◌≡◌, refl, sym, ap, ◌∙◌, ◌==◌, ==_iff, ◌||◌, Bool, true, false, if◌then◌else◌, List, [], ◌∷◌,
  ◌++◌, Option, none, some, arith, Option-cases, Bool-cases, inl, inr, subst,
}
use rmond_drs.Oid.{Oid, IndexOrder}
use rmond_drs.Container.{Memory}
use rmond_drs.Tuple.{Tuple}
use rmond_drs.Table.{lock, find}
use rmond_drs.Table.Laws.{IsValid, erase-IsValid, erased}
use rmond_drs.Table.Lookup.{find-lock}
use rmond_drs.SinkTable.{Sink}
use rmond_drs.Request.Rows.{lock_id}
use rmond_drs.Session.{positive}
use rmond_drs.Sinks.{World, reap, reap_one, reap_all, reaper_do}

abbrev pub member : ℕ → List ℕ → Bool
member i [] = false
member i (j ∷ js) = j == i || member i js

-- A sink survives if its acks are positive.
abbrev pub survivor : Option (Tuple Sink) → Option (Tuple Sink)
survivor none = none
survivor (some t) = if positive t.cells.acks then some t else none

abbrev pub chosen : ℕ → Option (Tuple Sink) → List ℕ → List ℕ
chosen id none ids = ids
chosen id (some _) ids = id ∷ ids

-- The tracked sinks that are alive and survive, in their order.
abbrev pub survivors : List (Oid × Tuple Sink) → List ℕ → List ℕ
survivors rows [] = []
survivors rows (id ∷ ids) = chosen id (survivor (lock id rows)) (survivors rows ids)

module _ ⦃o : IndexOrder⦄ where
  pub reap_one-none :
      (m : Memory) (id : ℕ) (w : World)
      → lock id w.sinks.rows ≡ none
      → reap_one m id (lock id w.sinks.rows) w ≡ (w, [])
  unfolding reap_one
  reap_one-none m id w e = rw e

  pub reap_one-some :
      (m : Memory) (id : ℕ) (w : World) (y : Tuple Sink)
      → lock id w.sinks.rows ≡ some y
      → reap_one m id (lock id w.sinks.rows) w
        ≡ (if positive y.cells.acks then (w, id ∷ []) else (reap m y w, []))
  unfolding reap_one
  reap_one-some m id w y e = rw (e, reap_one)

  reap-sinks :
      (m : Memory) (w : World) (y : Tuple Sink) (i : ℕ)
      → IsValid w.sinks
      → lock y.id w.sinks.rows ≡ some y
      → IsValid (reap m y w).sinks
        × (lock y.id (reap m y w).sinks.rows ≡ none)
        × ((y.id == i) ≡ false → lock i (reap m y w).sinks.rows ≡ lock i w.sinks.rows)
  unfolding reap
  reap-sinks m w y i v e =
      let gone = erased y y w.sinks y.key i v (found y v e) in
      (erase-IsValid y w.sinks v, gone.2, gone.3)
    where
      found :
          (y : Tuple Sink)
          → IsValid w.sinks
          → lock y.id w.sinks.rows ≡ some y
          → find y.key w.sinks ≡ some y
      found y v e = unfold find in find-lock y.id w.sinks.rows y v.sorted v.keyed e

  -- What one weak pointer comes to.
  abbrev pub After : ℕ → ℕ → World → World × List ℕ → Type 0
  After id i w (w1, kept) =
      IsValid w1.sinks
      × (lock i w1.sinks.rows
          ≡ (if id == i then survivor (lock i w.sinks.rows) else lock i w.sinks.rows))
      × (kept ≡ chosen id (survivor (lock id w.sinks.rows)) [])

  survivor_kept :
      {l : Option (Tuple Sink)} (y : Tuple Sink)
      → l ≡ some y
      → positive y.cells.acks ≡ true
      → survivor l ≡ some y
  survivor_kept y e p = rw (e, p) refl

  survivor_gone :
      {l : Option (Tuple Sink)} (y : Tuple Sink)
      → l ≡ some y
      → positive y.cells.acks ≡ false
      → survivor l ≡ none
  survivor_gone y e p = rw (e, p) refl

  locks_eq :
      (id i : ℕ) (after before : ℕ → Option (Tuple Sink))
      → survivor (before id) ≡ after id
      → ((id == i) ≡ false → after i ≡ before i)
      → after i ≡ (if id == i then survivor (before i) else before i)
  locks_eq id i after before e f = elim (Bool-cases (id == i)) [
    | inl p ↦ rw (p) (subst (λ k. after k ≡ survivor (before k)) ((==_iff id i).0 p) (sym e))
    | inr p ↦ rw (p) (f p)
  ]

  -- The sink stays, or it goes.
  stays :
      (m : Memory) (id i : ℕ) (w : World) (y : Tuple Sink)
      → IsValid w.sinks
      → lock id w.sinks.rows ≡ some y
      → positive y.cells.acks ≡ true
      → After id i w (reap_one m id (lock id w.sinks.rows) w)
  stays m id i w y v e p =
      rw (reap_one-some m id w y e, p)
        (
          v,
          locks_eq id i (λ k. lock k w.sinks.rows) (λ k. lock k w.sinks.rows)
              (survivor_kept y e p ∙ sym e) (λ _. refl),
          rw (survivor_kept y e p) refl,
        )

  goes :
      (m : Memory) (id i : ℕ) (w : World) (y : Tuple Sink)
      → IsValid w.sinks
      → lock id w.sinks.rows ≡ some y
      → positive y.cells.acks ≡ false
      → After id i w (reap_one m id (lock id w.sinks.rows) w)
  goes m id i w y v e p =
      let same = lock_id id w.sinks.rows y e in
      let r = reap-sinks m w y i v (subst (λ k. lock k w.sinks.rows ≡ some y) (sym same) e) in
      rw (reap_one-some m id w y e, p)
        (
          r.0,
          locks_eq id i (λ k. lock k (reap m y w).sinks.rows) (λ k. lock k w.sinks.rows)
              (survivor_gone y e p
                ∙ sym (subst (λ k. lock k (reap m y w).sinks.rows ≡ none) same r.1))
              (λ n. r.2 (subst (λ k. (k == i) ≡ false) (sym same) n)),
          rw (survivor_gone y e p) refl,
        )

  pub reap_one-After :
      (m : Memory) (id i : ℕ) (w : World)
      → IsValid w.sinks
      → After id i w (reap_one m id (lock id w.sinks.rows) w)
  reap_one-After m id i w v = elim (Option-cases (lock id w.sinks.rows)) [
    | inl e ↦ rw (reap_one-none m id w e) (v, ground (arith, ==_iff id i), ground arith)
    | inr (y, e) ↦ elim (Bool-cases (positive y.cells.acks)) [
      | inl p ↦ stays m id i w y v e p
      | inr p ↦ goes m id i w y v e p
    ]
  ]

  survivor-survivor : (l : Option (Tuple Sink)) → survivor (survivor l) ≡ survivor l
  survivor-survivor none = refl
  survivor-survivor (some t) = elim (Bool-cases (positive t.cells.acks)) [
    | inl p ↦ rw (p, p) refl
    | inr p ↦ rw (p) refl
  ]

  survivors-agree :
      (a b : List (Oid × Tuple Sink)) (ids : List ℕ)
      → ((j : ℕ) → survivor (lock j a) ≡ survivor (lock j b))
      → survivors a ids ≡ survivors b ids
  survivors-agree a b [] f = refl
  survivors-agree a b (id ∷ ids) f =
      ap (λ s. chosen id s (survivors a ids)) (f id)
      ∙ ap (chosen id (survivor (lock id b))) (survivors-agree a b ids f)

  survivor-branch :
      (c : Bool) (after before : Option (Tuple Sink))
      → after ≡ (if c then survivor before else before)
      → survivor after ≡ survivor before
  survivor-branch true after before e = rw (e) (survivor-survivor before)
  survivor-branch false after before e = ap survivor e

  branches :
      (a b : Bool) (first second before : Option (Tuple Sink))
      → first ≡ (if a then survivor before else before)
      → second ≡ (if b then survivor first else first)
      → second ≡ (if a || b then survivor before else before)
  branches true true f s w e d = d ∙ ap survivor e ∙ survivor-survivor w
  branches true false f s w e d = d ∙ e
  branches false true f s w e d = d ∙ ap survivor e
  branches false false f s w e d = d ∙ e

  abbrev AfterAll : List ℕ → ℕ → World → World × List ℕ → Type 0
  AfterAll ids i w (w1, kept) =
      IsValid w1.sinks
      × (lock i w1.sinks.rows
          ≡ (if member i ids then survivor (lock i w.sinks.rows) else lock i w.sinks.rows))
      × (kept ≡ survivors w.sinks.rows ids)

  reap_all-After :
      (m : Memory) (ids : List ℕ) (i : ℕ) (w : World)
      → IsValid w.sinks
      → AfterAll ids i w (reap_all m ids w)
  unfolding reap_all
  reap_all-After m [] i w v = (v, refl, refl)
  reap_all-After m (id ∷ ids) i w v =
      let one = reap_one m id (lock id w.sinks.rows) w in
      let h = reap_one-After m id i w v in
      let r = reap_all-After m ids i one.0 h.0 in
      let agree = survivors-agree one.0.sinks.rows w.sinks.rows ids (λ j.
        survivor-branch (id == j) (lock j one.0.sinks.rows) (lock j w.sinks.rows)
          (reap_one-After m id j w v).1) in
      (
        r.0,
        branches (id == i) (member i ids) (lock i one.0.sinks.rows)
            (lock i (reap_all m ids one.0).0.sinks.rows) (lock i w.sinks.rows) h.1 r.1,
        joined id (survivor (lock id w.sinks.rows)) h.2 (r.2 ∙ agree),
      )
    where
      joined :
          {kept rest rest1 : List ℕ} (id : ℕ) (s : Option (Tuple Sink))
          → kept ≡ chosen id s []
          → rest ≡ rest1
          → kept ++ rest ≡ chosen id s rest1
      joined id none e d = rw (e, d) refl
      joined id (some _) e d = rw (e, d) refl

  -- A round of the reaper, over a valid sink table: the table stays valid, of the tracked sinks just
  -- those with positive acks stay in it, no other sink is touched, and the reaper goes on tracking
  -- the sinks that stay, in their order.
  pub reaper_do_lem :
      (m : Memory) (w : World) (i : ℕ)
      → IsValid w.sinks
      → IsValid (reaper_do m w).sinks
        × (lock i (reaper_do m w).sinks.rows
            ≡ (if member i w.tracked then survivor (lock i w.sinks.rows) else lock i w.sinks.rows))
        × ((reaper_do m w).tracked ≡ survivors w.sinks.rows w.tracked)
  unfolding reaper_do
  reaper_do_lem m w i v = reap_all-After m w.tracked i w v
