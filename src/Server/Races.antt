-- ===== src/Server/Races.antt =====
-- What comes between the two halves of a pull, while the mutex is left: the host is asked then.
use rmond_drs.Base.{
  ℕ, ◌≡◌, refl, ◌∙◌, Bool, true, false, List, Option, none, some, ok, fault, arith,
}
use rmond_drs.Container.{find}
use rmond_drs.Server.{
  Server, Uuid, strings, attach, attach_free, detach, pull_begin, pull_known, pull_end, erase,
  show_ves, handle_entry,
}
use rmond_drs.Server.Steps.{
  attaches, detaches, pulls, ends_pull, erases, handles, Reach, here, next,
}

-- The last step of a run that attaches or detaches the server is a detach.
abbrev pub Overtaken : {s t : Server} → Reach s t → Type 0
Overtaken here = ⊥
Overtaken (next r (attaches handle h listed scheduler s)) = ⊥
Overtaken (next r (detaches scheduler s)) = Unit {0}
Overtaken (next r (pulls d scheduler s)) = Overtaken r
Overtaken (next r (ends_pull d u scheduler s t e)) = Overtaken r
Overtaken (next r (erases d s t e)) = Overtaken r
Overtaken (next r (handles s)) = Overtaken r

-- No step of a run detaches the server.
abbrev pub Undetached : {s t : Server} → Reach s t → Type 0
Undetached here = Unit {0}
Undetached (next r (attaches handle h listed scheduler s)) = Undetached r
Undetached (next r (detaches scheduler s)) = ⊥
Undetached (next r (pulls d scheduler s)) = Undetached r
Undetached (next r (ends_pull d u scheduler s t e)) = Undetached r
Undetached (next r (erases d s t e)) = Undetached r
Undetached (next r (handles s)) = Undetached r

host-pull_known :
    (scheduler : Bool) (o : Option ℕ) (s : Server) → (pull_known scheduler o s).0.host ≡ s.host
unfolding pull_known
host-pull_known scheduler none s = refl
host-pull_known true (some u) s = refl
host-pull_known false (some u) s = refl

host-pull_begin :
    (d : Uuid) (scheduler : Bool) (s : Server) → (pull_begin d scheduler s).0.host ≡ s.host
unfolding pull_begin
host-pull_begin d scheduler s = host-pull_known scheduler (find d s.ves) s

host-pull_end :
    (d : Uuid) (u : ℕ) (scheduler : Bool) (s t : Server)
    → pull_end d u scheduler s ≡ ok t
    → t.host ≡ s.host
unfolding pull_end show_ves
host-pull_end d u scheduler s t e = ground arith

host-erase : (d : Uuid) (s t : Server) → erase d s ≡ ok t → t.host ≡ s.host
unfolding erase show_ves
host-erase d s t e = ground arith

host-handle_entry : (s : Server) → (handle_entry s).0.host ≡ s.host
unfolding handle_entry
host-handle_entry s = ground arith

host-attach :
    (handle h g : ℕ) (listed : Option (List (Option Uuid × ℕ))) (scheduler : Bool) (s : Server)
    → s.host ≡ some g
    → (attach handle h listed scheduler s).0.host ≡ some g
unfolding attach attach_free
host-attach handle h g listed scheduler s e = ground arith

host-Overtaken : {s t : Server} (r : Reach s t) → Overtaken r → t.host ≡ none
unfolding detach
host-Overtaken here q = absurd q
host-Overtaken (next r (attaches handle h listed scheduler s)) q = absurd q
host-Overtaken (next r (detaches scheduler s)) q = refl
host-Overtaken (next r (pulls d scheduler s)) q = host-pull_begin d scheduler s ∙ host-Overtaken r q
host-Overtaken (next r (ends_pull d u scheduler s t f)) q =
    host-pull_end d u scheduler s t f ∙ host-Overtaken r q
host-Overtaken (next r (erases d s t f)) q = host-erase d s t f ∙ host-Overtaken r q
host-Overtaken (next r (handles s)) q = host-handle_entry s ∙ host-Overtaken r q

host-Undetached :
    (g : ℕ) {s t : Server} (r : Reach s t) → Undetached r → s.host ≡ some g → t.host ≡ some g
host-Undetached g here q e = e
host-Undetached g (next r (attaches handle h listed scheduler s)) q e =
    host-attach handle h g listed scheduler s (host-Undetached g r q e)
host-Undetached g (next r (detaches scheduler s)) q e = absurd q
host-Undetached g (next r (pulls d scheduler s)) q e =
    host-pull_begin d scheduler s ∙ host-Undetached g r q e
host-Undetached g (next r (ends_pull d u scheduler s t f)) q e =
    host-pull_end d u scheduler s t f ∙ host-Undetached g r q e
host-Undetached g (next r (erases d s t f)) q e = host-erase d s t f ∙ host-Undetached g r q e
host-Undetached g (next r (handles s)) q e = host-handle_entry s ∙ host-Undetached g r q e

pull_end_fault :
    (d : Uuid) (u : ℕ) (scheduler : Bool) (s : Server)
    → s.host ≡ none
    → pull_end d u scheduler s ≡ fault
unfolding pull_end show_ves
pull_end_fault d u scheduler s e = ground arith

erase_fault : (d : Uuid) (s : Server) → s.host ≡ none → erase d s ≡ fault
unfolding erase show_ves
erase_fault d s e = ground arith

pull_end_runs :
    (d : Uuid) (u g : ℕ) (scheduler : Bool) (s : Server)
    → s.host ≡ some g
    → (t : Server) × (pull_end d u scheduler s ≡ ok t)
unfolding pull_end show_ves
pull_end_runs d u g scheduler s e = rw e (_, refl)

-- A pull of an environment that an attached server does not know leaves the mutex and has the host to
-- be asked. It then ends without a fault after any steps of other threads with no detach among them.
-- But where the server is detached in between, and no attempt to attach it follows, the end of the
-- pull dereferences a null pointer, and so does the erasing of any environment.
pub overtaken :
    (d e : Uuid) (u h : ℕ) (scheduler : Bool) (s : Server)
    → s.host ≡ some h
    → find d s.ves ≡ none
    → {v : Server} (q : Reach (pull_begin d scheduler s).0 v) → Undetached q
    → {y : Server} (r : Reach (pull_begin d scheduler s).0 y) → Overtaken r
    → (pull_begin d scheduler s ≡ (s, some h))
      × ((w : Server) × (pull_end d u scheduler v ≡ ok w))
      × (pull_end d u scheduler y ≡ fault)
      × (erase e y ≡ fault)
unfolding pull_begin pull_known
overtaken d e u h scheduler s g n {v} q a {y} r b = (
  ground (arith, g, n),
  pull_end_runs d u h scheduler v (host-Undetached h q a (host-pull_begin d scheduler s ∙ g)),
  pull_end_fault d u scheduler y (host-Overtaken r b),
  erase_fault e y (host-Overtaken r b),
)
