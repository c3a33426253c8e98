-- ===== src/Handler/Laws.antt =====
-- What the phases of a request come to, and where the loop over the requests of a PDU ends.
use rmond_drs.Base.{
  ℕ, ◌≡◌, ◌==◌, Bool, true, false, List, [], ◌∷◌, ◌++◌, Outcome, ok, ◌>>=◌, arith, Outcome-cases,
  inl, inr,
}
use rmond_drs.Oid.{IndexOrder}
use rmond_drs.Asn.{Netsnmp}
use rmond_drs.Tuple.{Schema}
use rmond_drs.Table.{Table}
use rmond_drs.Request.{Request}
use rmond_drs.Request.Rollback.{undone}
use rmond_drs.Request.Lifecycle.{done}
use rmond_drs.Handler.{
  mutable, read_only, trivial, handle, mode_set_reserve1, mode_set_reserve2, mode_set_action,
  mode_set_commit, mode_set_undo, mode_get,
}

module _ {W : Type 0} where
  -- The phases of a SET on one state, in turn.
  abbrev pub phases : (ℕ → W → Outcome W) → List ℕ → W → Outcome W
  phases h [] w = ok w
  phases h (m ∷ ms) w = do w1 ← h m w; phases h ms w1

  -- A read-only table answers GET and is deaf to every other phase.
  read_only-deaf :
      (get : W → Outcome W) (alive : Bool) (mode : ℕ) (w : W)
      → (mode_get == mode) ≡ false
      → read_only get alive mode w ≡ ok w
  unfolding read_only
  read_only-deaf get alive mode w h = ground arith

module _ {R : Type 0} ⦃o : IndexOrder⦄ ⦃n : Netsnmp⦄ (s : Schema R) where
  -- The phases that a SET goes through on a mutable table when one fails (both reserves, the action,
  -- the undo) come to `reserve`, `put` and `rollback` of the request, one after the other.
  phases-undo :
      (t : Table R) (q : Request)
      → (phases
            (mutable (trivial s true) true)
            (mode_set_reserve1 ∷ mode_set_reserve2 ∷ mode_set_action ∷ mode_set_undo ∷ [])
            (t, q)
          ≡ undone s true t q)
  unfolding mutable trivial
  phases-undo t q = ground arith

  -- The phases that a SET goes through on a mutable table when all succeed (both reserves, the action,
  -- the commit) come to `reserve`, `put` and `commit` of the request, one after the other.
  phases-commit :
      (t : Table R) (q : Request)
      → (phases
            (mutable (trivial s true) true)
            (mode_set_reserve1 ∷ mode_set_reserve2 ∷ mode_set_action ∷ mode_set_commit ∷ [])
            (t, q)
          ≡ done s t q)
  unfolding mutable trivial
  phases-commit t q = ground arith

module _ {R : Type 0} (h : Table R × Request → Outcome (Table R × Request)) where
  -- From the first request that has an error and was not dealt with elsewhere on, the requests of a
  -- PDU are left alone: the loop comes to what it comes to on those before it.
  handle_stops :
      (t : Table R) (pre : List Request) (q : Request) (post : List Request)
      → (q.processed == 0) ≡ true
      → (q.status == 0) ≡ false
      → handle h t (pre ++ q ∷ post) ≡ (do (t1, qs) ← handle h t pre; ok (t1, qs ++ q ∷ post))
  unfolding handle
  handle_stops t [] q post p e = ground arith
  handle_stops t (x ∷ pre) q post p e = elim (Outcome-cases (h (t, x))) [
    | inl bad ↦ ground (arith, handle_stops t pre q post p e)
    | inr ((t1, x1), good) ↦
        ground (arith, handle_stops t pre q post p e, handle_stops t1 pre q post p e)
  ]
