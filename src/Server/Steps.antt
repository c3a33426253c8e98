-- ===== src/Server/Steps.antt =====
-- The runs of a server: events and attempts to attach, by any threads. The two halves of a pull are
-- steps of their own, between which others may come; a step that faults leads nowhere.
use rmond_drs.Base.{ℕ, ◌≡◌, Bool, List, Option, ok}
use rmond_drs.Server.{Server, Uuid, attach, detach, pull_begin, pull_end, erase, handle_entry}

pub data Step : Server → Server → Type 0 where
  attaches :
      (handle h : ℕ) (listed : Option (List (Option Uuid × ℕ))) (scheduler : Bool) (s : Server)
      → Step s (attach handle h listed scheduler s).0
  detaches : (scheduler : Bool) (s : Server) → Step s (detach scheduler s)
  pulls : (d : Uuid) (scheduler : Bool) (s : Server) → Step s (pull_begin d scheduler s).0
  ends_pull :
      (d : Uuid) (u : ℕ) (scheduler : Bool) (s t : Server)
      → pull_end d u scheduler s ≡ ok t
      → Step s t
  erases : (d : Uuid) (s t : Server) → erase d s ≡ ok t → Step s t
  handles : (s : Server) → Step s (handle_entry s).0

pub data Reach (s : Server) : Server → Type 0 where
  here : Reach s s
  next : {t u : Server} → Reach s t → Step t u → Reach s u
