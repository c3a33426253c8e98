-- ===== src/Examples/Servers.antt =====
-- A server at concrete inputs.
use rmond_drs.Base.{◌≡◌, refl, true, if◌then◌else◌, [], ◌∷◌, none, some, ok, fault}
use rmond_drs.Oid.{less, lex}
use rmond_drs.Container.Laws.{same}
use rmond_drs.Server.{
  strings, Server, attach, detach, pull_begin, pull_end, handle_entry, erase, state,
}
use rmond_drs.Server.Steps.{here, next, attaches, detaches, handles}
use rmond_drs.Server.Invariant.{Consistent, Reach-Consistent}
use rmond_drs.Server.Laws.{pull_end_lem}
use rmond_drs.Server.Races.{overtaken}
use rmond_drs.Container.{find}

abbrev detached : Server
detached = record {
  active = none;
  psdk = none;
  host = none;
  shown = 0;
  ves = [];
  pushed = [];
  hooked = 0;
  unhooked = 0;
}

-- Attached to host 9, with two environments.
abbrev attached : Server
attached = record {
  active = some true;
  psdk = some 3;
  host = some 9;
  shown = 2;
  ves = (65 ∷ [], 1) ∷ (66 ∷ [], 2) ∷ [];
  pushed = [];
  hooked = 1;
  unhooked = 0;
}

detached-Consistent : Consistent detached
detached-Consistent = record { sorted = tt; attached = (refl, refl, refl) }

attached-Consistent : Consistent attached
unfolding less lex strings
attached-Consistent = record { sorted = ((refl, tt), (tt, tt)); attached = (refl, refl) }

Reach-Consistent_example :
    Consistent (detach true (attach 3 9 (some ((some (65 ∷ []), 1) ∷ [])) true detached).0)
Reach-Consistent_example = Reach-Consistent detached detached-Consistent (
    next (next here (attaches 3 9 (some ((some (65 ∷ []), 1) ∷ [])) true detached))
      (detaches true (attach 3 9 (some ((some (65 ∷ []), 1) ∷ [])) true detached).0))

pull_end_lem_example :
    (t : Server) × (pull_end (67 ∷ []) 5 true attached ≡ ok t)
    × (state (65 ∷ []) t ≡ (if same (65 ∷ []) (67 ∷ []) then some 5 else state (65 ∷ []) attached))
pull_end_lem_example = pull_end_lem (67 ∷ []) (65 ∷ []) 5 9 true attached attached-Consistent refl

unknown : find (67 ∷ []) attached.ves ≡ none
unfolding find less lex strings
unknown = refl

overtaken_example :
    (pull_begin (67 ∷ []) true attached ≡ (attached, some 9))
    × ((w : Server) × (pull_end
            (67 ∷ [])
            5
            true
            (handle_entry (pull_begin (67 ∷ []) true attached).0).0
          ≡ ok w))
    × (pull_end (67 ∷ []) 5 true (detach true (pull_begin (67 ∷ []) true attached).0) ≡ fault)
    × (erase (66 ∷ []) (detach true (pull_begin (67 ∷ []) true attached).0) ≡ fault)
overtaken_example =
    overtaken (67 ∷ []) (66 ∷ []) 5 9 true attached refl unknown
      (next here (handles (pull_begin (67 ∷ []) true attached).0)) tt
      (next here (detaches true (pull_begin (67 ∷ []) true attached).0)) tt
