-- ===== src/Server/Laws.antt =====
-- What the events do to a server's environments and what is published of them.
use rmond_drs.Base.{
  ℕ, zero, suc, ◌≡◌, ◌<◌, ◌==◌, refl, ap, ◌∙◌, Bool, true, false, if◌then◌else◌, List, [], ◌∷◌, map,
  Option, none, some, ok, length, arith, Bool-cases, inl, inr, subst, sym,
}
use rmond_drs.Container.{drop_key}
use rmond_drs.Container.Laws.{same, find-drop_key}
use rmond_drs.Server.Names.{find-assign}
use rmond_drs.Server.{
  strings, Server, Uuid, pull_usage, assign, show_ves, pull_end, erase, state, Issuer, Source,
  event, param, issuer_env, refreshes, refresh_env, performance, snapshot, when, no_count,
  EventTypes, dispatch, handle, handle_entry, entry,
}
use rmond_drs.Server.Invariant.{Consistent, Attached, is_active}

pull_end_ok :
    (d : Uuid) (u h : ℕ) (scheduler : Bool) (s : Server)
    → s.host ≡ some h
    → pull_end d u scheduler s
      ≡ ok (
          when scheduler
            (pull_usage u)
            (record s { ves = assign d u s.ves; shown = length (assign d u s.ves) }))
unfolding pull_end show_ves
pull_end_ok d u h scheduler s e = rw e refl

erase_ok :
    (d : Uuid) (h : ℕ) (s : Server)
    → s.host ≡ some h
    → erase d s ≡ ok (record s { ves = drop_key d s.ves; shown = length (drop_key d s.ves) })
unfolding erase show_ves
erase_ok d h s e = rw e refl

-- On a consistent server with a host, a pull of an environment that the host has found ends well:
-- events of that UUID go to that environment, those of other UUIDs where they went before.
pub pull_end_lem :
    (d e : Uuid) (u h : ℕ) (scheduler : Bool) (s : Server)
    → Consistent s
    → s.host ≡ some h
    → (t : Server) × (pull_end d u scheduler s ≡ ok t)
      × (state e t ≡ (if same e d then some u else state e s))
pull_end_lem d e u h false s c g =
    (_, pull_end_ok d u h false s g, unfold state in find-assign e d u s.ves c.sorted)
pull_end_lem d e u h true s c g =
    (_, pull_end_ok d u h true s g, unfold state in find-assign e d u s.ves c.sorted)

-- On a consistent server with a host, an environment that is erased gets no more events; the others
-- get theirs.
erased_lem :
    (d e : Uuid) (h : ℕ) (s : Server)
    → Consistent s
    → s.host ≡ some h
    → (t : Server) × (erase d s ≡ ok t) × (state e t ≡ (if same e d then none else state e s))
erased_lem d e h s c g = (_, erase_ok d h s g, unfold state in find-drop_key e d s.ves c.sorted)

length-map : (s : List (Uuid × ℕ)) → length (map (λ p. p.1) s) ≡ length s
length-map [] = refl
length-map (p ∷ s) = ap suc (length-map s)

-- A snapshot of a consistent server with a host asks the host and then as many environments as the
-- host shows.
length-snapshot :
    (h : ℕ) (s : Server) → Consistent s → s.host ≡ some h → length (snapshot s) ≡ suc s.shown
unfolding snapshot
length-snapshot h s c e = rw e (
    ap suc (
      length-map s.ves
      ∙ sym (subst (λ g. Attached g s.psdk s.active s.shown s.ves) e c.attached).0))

-- Only the issuer's environment is refreshed.
abbrev pub Only : ℕ → List (ℕ × Source) → Type 0
Only e [] = Unit {0}
Only e (r ∷ rs) = (r.0 ≡ e) × Only e rs

-- The parameters are in descending order, all below n.
abbrev pub Descending : ℕ → List (ℕ × Source) → Type 0
Descending n [] = Unit {0}
Descending n ((e, event) ∷ rs) = ⊥
Descending n ((e, param i) ∷ rs) = (i < n) × Descending i rs

Descending-suc : (n : ℕ) (rs : List (ℕ × Source)) → Descending n rs → Descending (suc n) rs
Descending-suc n [] d = tt
Descending-suc n ((e, event) ∷ rs) d = d
Descending-suc n ((e, param i) ∷ rs) d = (omega (arith, d.0), d.1)

refreshes-Only : (e : ℕ) (got : ℕ → Bool) (n : ℕ) → Only e (refreshes e got n)
unfolding refreshes
refreshes-Only e got zero = tt
refreshes-Only e got (suc n) = elim (Bool-cases (got n)) [
  | inl g ↦ rw g (refl, refreshes-Only e got n)
  | inr g ↦ rw g (refreshes-Only e got n)
]

refreshes-Descending : (e : ℕ) (got : ℕ → Bool) (n : ℕ) → Descending n (refreshes e got n)
unfolding refreshes
refreshes-Descending e got zero = tt
refreshes-Descending e got (suc n) = elim (Bool-cases (got n)) [
  | inl g ↦ rw g (omega arith, refreshes-Descending e got n)
  | inr g ↦ rw g (Descending-suc n (refreshes e got n) (refreshes-Descending e got n))
]

-- An event of an issuer that the server knows, whose number of parameters is not ~0U, refreshes the
-- issuer's environment alone, with parameters that the event has, each at most once and the last one
-- first.
performance_lem :
    (i : Issuer) (e count : ℕ) (got : ℕ → Bool) (s : Server)
    → issuer_env i s ≡ some e
    → (count == no_count) ≡ false
    → Only e (performance (some i) count got s)
      × Descending count (performance (some i) count got s)
unfolding performance
performance_lem i e count got s k c =
    rw k (unfold refresh_env in rw c (refreshes-Only e got count, refreshes-Descending e got count))

-- An event reaches no operation of a consistent server without a host.
handle_detached :
    (types : EventTypes) (t : Option ℕ) (s : Server)
    → Consistent s
    → s.host ≡ none
    → (handle types t s).1 ≡ none
unfolding handle handle_entry
handle_detached types none s c e = refl
handle_detached types (some t) s c e =
    asleep types t s.active s (subst (λ g. Attached g s.psdk s.active s.shown s.ves) e c.attached).1
  where
    asleep :
        (types : EventTypes) (t : ℕ) (a : Option Bool) (s : Server)
        → is_active a ≡ false
        → (if (entry a s).1 then dispatch types t else none) ≡ none
    asleep types t none s h = refl
    asleep types t (some b) s h = rw h refl
