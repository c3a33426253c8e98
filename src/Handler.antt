-- ===== src/Handler.antt =====
-- The handlers of src/handler.h (`Handler::Base`, `Trivial`, `ReadOnly`, `Mutable`), and the loop
-- `Table::Unit::handle` of src/table.h over the requests of a PDU.
pub mod Laws
use rmond_drs.Base.{
  ℕ, Bool, true, false, ◌==◌, if◌then◌else◌, List, [], ◌∷◌, Outcome, ok, fault, ◌>>=◌,
}
use rmond_drs.Oid.{IndexOrder}
use rmond_drs.Asn.{Netsnmp}
use rmond_drs.Automat.{Row, do_}
use rmond_drs.Tuple.{Schema}
use rmond_drs.Table.{Table}
use rmond_drs.Request.{Request, Answer}
use rmond_drs.Request

-- The phases of a request, from net-snmp's agent_handler.h.
abbrev pub mode_set_reserve1 : ℕ
mode_set_reserve1 = 0

abbrev pub mode_set_reserve2 : ℕ
mode_set_reserve2 = 1

abbrev pub mode_set_action : ℕ
mode_set_action = 2

abbrev pub mode_set_commit : ℕ
mode_set_commit = 3

abbrev pub mode_set_free : ℕ
mode_set_free = 4

abbrev pub mode_set_undo : ℕ
mode_set_undo = 5

abbrev pub mode_get : ℕ
mode_get = 160

-- The member functions of `Mutable<T, I>` on a state W: those of `Request::Unit`, and the two that
-- the implementation I gives.
pub record Methods (W : Type 0) : Type 0 where
  pub get : W → Outcome W
  pub rollback : W → Outcome W
  pub put : W → Outcome W
  pub reserve : W → Outcome W
  pub impl_reserve : W → Outcome W
  pub impl_commit : W → Outcome W

module _ {W : Type 0} where
  abbrev pub on : ℕ → (W → Outcome W) → Row (W → Outcome W)
  on mode f = record { this_case = mode; execute = f }

  -- `Mutable::table_type`.
  unfoldable pub mutable_table : Methods W → List (Row (W → Outcome W))
  mutable_table m =
      on mode_get m.get
      ∷ on mode_set_action m.put
      ∷ on mode_set_reserve1 m.reserve
      ∷ on mode_set_reserve2 m.impl_reserve
      ∷ on mode_set_free m.rollback
      ∷ on mode_set_undo m.rollback
      ∷ on mode_set_commit m.impl_commit
      ∷ []

  -- `Base::operator()`: nothing happens once the table is gone; modes of no row do nothing.
  unfoldable pub mutable : Methods W → Bool → ℕ → W → Outcome W
  unfolding mutable_table do_
  mutable m alive mode w = if alive then do_ (mutable_table m) ok mode w else ok w

  -- `ReadOnly::table_type`.
  unfoldable pub read_only : (W → Outcome W) → Bool → ℕ → W → Outcome W
  unfolding do_
  read_only get alive mode w = if alive then do_ (on mode_get get ∷ []) ok mode w else ok w

module _ {R : Type 0} ⦃o : IndexOrder⦄ ⦃n : Netsnmp⦄ where
  -- `Mutable<T, Trivial<T>>`.
  unfoldable pub trivial : Schema R → Bool → Methods (Table R × Request)
  trivial s memory = record {
    get = λ (t, q). Request.get s t q;
    rollback = λ (t, q). Request.rollback s t q;
    put = λ (t, q). Request.put s t q;
    reserve = λ (t, q). Request.reserve s memory t q;
    impl_reserve = ok;
    impl_commit = λ (t, q). Request.commit s t q;
  }

-- `Unit::handle`: requests dealt with are skipped, and the loop ends at one that has an error.
unfoldable pub handle :
    {R : Type 0}
    → (Table R × Request → Outcome (Table R × Request))
    → Table R
    → List Request
    → Outcome (Table R × List Request)
handle h t [] = ok (t, [])
handle h t (q ∷ qs) =
    let skip = (do (t1, rest) ← handle h t qs; ok (t1, q ∷ rest)) in
    let run = (do (t1, q1) ← h (t, q); (t2, rest) ← handle h t1 qs; ok (t2, q1 ∷ rest)) in
    if q.processed == 0 then (if q.status == 0 then run else ok (t, q ∷ qs)) else skip
