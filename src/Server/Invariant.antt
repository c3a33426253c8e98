-- ===== src/Server/Invariant.antt =====
-- What holds of a server however its events interleave.
use rmond_drs.Base.{
  ℕ, ◌≡◌, refl, sym, subst, Bool, true, false, List, [], ◌∷◌, Option, none, some, ok, fault, length,
  arith, Outcome-cases, inl, inr,
}
use rmond_drs.Container.{find, drop_key}
use rmond_drs.Container.Laws.{Sorted, drop_key-Sorted}
use rmond_drs.Server.Names.{assign-Sorted}
use rmond_drs.Server.{
  strings, Server, Uuid, assign, attach_ves, attach, detach, pull_known, pull_begin, show_ves,
  pull_end, erase, handle_entry, attach_free, when, entry, Job, pull_usage, pull_state,
}
use rmond_drs.Server.Steps.{
  Step, attaches, detaches, pulls, ends_pull, erases, handles, Reach, here, next,
}

abbrev pub is_active : Option Bool → Bool
is_active none = false
is_active (some b) = b

-- With a host, the server is active and the host shows as many environments as the server has;
-- without one, it has none, no handle, and is not active.
abbrev pub Attached : Option ℕ → Option ℕ → Option Bool → ℕ → List (Uuid × ℕ) → Type 0
Attached none psdk active shown ves = (ves ≡ []) × (is_active active ≡ false) × (psdk ≡ none)
Attached (some h) psdk active shown ves = (shown ≡ length ves) × (active ≡ some true)

pub record Consistent (s : Server) : Type 0 where
  pub sorted : Sorted s.ves
  pub attached : Attached s.host s.psdk s.active s.shown s.ves

attach_ves-Sorted :
    (a : List (Option Uuid × ℕ)) (s : Server) → Sorted s.ves → Sorted (attach_ves a s).ves
unfolding attach_ves
attach_ves-Sorted [] s h = h
attach_ves-Sorted ((none, x) ∷ a) s h = attach_ves-Sorted a s h
attach_ves-Sorted ((some u, x) ∷ a) s h = attach_ves-Sorted a _ (assign-Sorted u x s.ves h)

attach_ves-host : (a : List (Option Uuid × ℕ)) (s : Server) → (attach_ves a s).host ≡ s.host
unfolding attach_ves
attach_ves-host [] s = refl
attach_ves-host ((none, x) ∷ a) s = attach_ves-host a s
attach_ves-host ((some u, x) ∷ a) s = attach_ves-host a _

attach_free-Consistent :
    (handle h : ℕ) (a : List (Option Uuid × ℕ)) (g : Option ℕ) (s : Server)
    → Consistent s
    → Consistent (attach_free handle h a g s)
unfolding attach_free
attach_free-Consistent handle h a (some g) s c = c
attach_free-Consistent handle h a none s c =
    let start = record s {
      psdk = some handle;
      host = some h;
      pushed = pull_usage h ∷ pull_state h ∷ s.pushed;
    } in
    let t = attach_ves a start in
    record {
      sorted = attach_ves-Sorted a start c.sorted;
      attached =
          subst (λ g. Attached g t.psdk (some true) (length t.ves) t.ves)
            (sym (attach_ves-host a start)) (refl, refl);
    }

attach-Consistent :
    (handle h : ℕ) (listed : Option (List (Option Uuid × ℕ))) (scheduler : Bool) (s : Server)
    → Consistent s
    → Consistent (attach handle h listed scheduler s).0
unfolding attach
attach-Consistent handle h none scheduler s c = c
attach-Consistent handle h (some a) false s c = c
attach-Consistent handle h (some a) true s c = attach_free-Consistent handle h a s.host s c

detach-Consistent : (scheduler : Bool) (s : Server) → Consistent (detach scheduler s)
unfolding detach
detach-Consistent scheduler s = record { sorted = tt; attached = (refl, refl, refl) }

pull_known-Consistent :
    (scheduler : Bool) (r : Option ℕ) (s : Server)
    → Consistent s
    → Consistent (pull_known scheduler r s).0
unfolding pull_known
pull_known-Consistent scheduler none s c = c
pull_known-Consistent false (some u) s c = c
pull_known-Consistent true (some u) s c = record { sorted = c.sorted; attached = c.attached }

when-Consistent :
    (scheduler : Bool) (j : Job) (s : Server) → Consistent s → Consistent (when scheduler j s)
when-Consistent false j s c = c
when-Consistent true j s c = record { sorted = c.sorted; attached = c.attached }

-- The host shows the environments that the server has got.
shown_ves :
    (g : Option ℕ) (ves : List (Uuid × ℕ)) (s t : Server)
    → s.host ≡ g
    → Sorted ves
    → Attached s.host s.psdk s.active s.shown s.ves
    → show_ves g (record s { ves = ves }) ≡ ok t
    → Consistent t
unfolding show_ves
shown_ves none ves s t e o a d = ground arith
shown_ves (some h) ves s t e o a d =
    subst (λ z. elim z [ ok x ↦ Consistent x | fault ↦ Consistent t ]) d
      (record {
        sorted = o;
        attached =
            subst (λ g. Attached g s.psdk s.active (length ves) ves) (sym e)
              (refl, (subst (λ g. Attached g s.psdk s.active s.shown s.ves) e a).1);
      })

erase-Consistent : (d : Uuid) (s t : Server) → erase d s ≡ ok t → Consistent s → Consistent t
unfolding erase
erase-Consistent d s t e c =
    shown_ves s.host (drop_key d s.ves) s t refl (drop_key-Sorted d s.ves c.sorted) c.attached e

pull_end-Consistent :
    (d : Uuid) (u : ℕ) (scheduler : Bool) (s t : Server)
    → pull_end d u scheduler s ≡ ok t
    → Consistent s
    → Consistent t
unfolding pull_end
pull_end-Consistent d u scheduler s t e c =
    elim (Outcome-cases (show_ves s.host (record s { ves = assign d u s.ves }))) [
      | inl bad ↦ ground arith
      | inr (x, good) ↦ subst Consistent (ground arith) (
          when-Consistent scheduler (pull_usage u) x (
            shown_ves s.host (assign d u s.ves) s x refl (assign-Sorted d u s.ves c.sorted)
              c.attached good))
    ]

entered :
    (g psdk : Option ℕ) (shown : ℕ) (ves : List (Uuid × ℕ))
    → Attached g psdk none shown ves
    → Attached g psdk (some false) shown ves
entered none psdk shown ves a = (a.0, refl, a.2)
entered (some h) psdk shown ves a = ground arith

entry-Consistent :
    (a : Option Bool) (s : Server) → s.active ≡ a → Consistent s → Consistent (entry a s).0
entry-Consistent (some b) s e c = c
entry-Consistent none s e c = record {
  sorted = c.sorted;
  attached =
      entered s.host s.psdk s.shown s.ves
        (subst (λ a. Attached s.host s.psdk a s.shown s.ves) e c.attached);
}

Step-Consistent : {s t : Server} → Step s t → Consistent s → Consistent t
Step-Consistent (attaches handle h listed scheduler s) c =
    attach-Consistent handle h listed scheduler s c
Step-Consistent (detaches scheduler s) c = detach-Consistent scheduler s
Step-Consistent (pulls d scheduler s) c =
    unfold pull_begin in pull_known-Consistent scheduler (find d s.ves) s c
Step-Consistent (ends_pull d u scheduler s t e) c = pull_end-Consistent d u scheduler s t e c
Step-Consistent (erases d s t e) c = erase-Consistent d s t e c
Step-Consistent (handles s) c = unfold handle_entry in entry-Consistent s.active s refl c

-- However attempts to attach, detaches, the halves of pulls, erases and other events interleave from
-- a server that is consistent, as a new one is: the environments are sorted by UUID; with a host, the
-- server is active and the host shows their number; without one there are none and events of the
-- SDK reach no server.
pub Reach-Consistent : (s : Server) → Consistent s → {t : Server} → Reach s t → Consistent t
Reach-Consistent s c here = c
Reach-Consistent s c (next r p) = Step-Consistent p (Reach-Consistent s c r)
