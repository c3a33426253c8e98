-- ===== src/Examples/Host.antt =====
-- The licence's counters, the scalars of the host, and the start and stop of the module.
use rmond_drs.Base.{ℕ, ◌≡◌, refl, true, false, not, ◌&&◌, map, All, List, [], ◌∷◌, ◌++◌, arith}
use rmond_drs.License.{parse}
use rmond_drs.License.Laws.{parse-digits}
use rmond_drs.Central.{Central, Attempt, init, fini, schedule}
use rmond_drs.Central.Laws.{init-fini}
use rmond_drs.Central.Startup.{Conditions, attempt, tables, init_lem}
use rmond_drs.Host.Scalars.{
  Answers, Data, properties, inject as inject_scalars, report, report_registered, Willing,
}
use rmond_drs.Examples.{lex_order, big_endian}

-- 12(7) and a new line.
parse-digits_example :
    parse ((49 ∷ 50 ∷ []) ++ 40 ∷ ((55 ∷ []) ++ 41 ∷ 10 ∷ [])) ≡ record { usage = 7; limit = 12 }
parse-digits_example =
    parse-digits (49 ∷ 50 ∷ []) (55 ∷ []) (10 ∷ []) (refl, (refl, tt)) (refl, tt) (omega arith)
      (omega arith) (omega arith)

abbrev stopped : Central
stopped = record { running = false; up = false; jobs = 0; stops = 0; active = 0 }

abbrev fine : Attempt
fine = record {
  sdk = true;
  server = true;
  reaper = true;
  thread = true;
  first_push = true;
  second_push = true;
}

init-fini_example :
    ((init fine stopped).0.up ≡ (init fine stopped).0.running)
    × ((init fine stopped).1 ≡ not (init fine stopped).0.running)
    × ((fini stopped).up ≡ false)
    × ((fini stopped).running ≡ false)
    × (schedule false (fini stopped) ≡ true)
init-fini_example = init-fini fine stopped false refl

-- No scalar can be registered; everything else works.
abbrev conditions : Conditions
conditions = record {
  scalars = λ luid. record { handler = false; registration = true; registered = true };
  fails = λ table. false;
  metrix_fails = false;
  sinks_fails = false;
  sdk = true;
  thread = true;
  first_push = true;
  second_push = false;
}

init_lem_example :
    ((init (attempt conditions) stopped).0.running
      ≡ (true && (tables (λ table. false) && ((not false && not false) && (true && true)))))
    × ((init (attempt conditions) stopped).1 ≡ not (init (attempt conditions) stopped).0.running)
    × ((init (attempt conditions) stopped).0.up ≡ (init (attempt conditions) stopped).0.running)
init_lem_example = init_lem conditions stopped refl refl

-- Each scalar is made and registered.
abbrev willing : ℕ → Answers
willing luid = record { handler = true; registration = true; registered = true }

willing-All : (luids : List ℕ) → All (λ luid. Willing (willing luid)) luids
willing-All [] = tt
willing-All (luid ∷ luids) = ((refl, refl, refl), willing-All luids)

abbrev numbers : Data
numbers luid = luid

report_registered_example :
    map (λ v. v.name) (report [] numbers) ≡ map (λ name. name ++ 0 ∷ []) (inject_scalars willing).0
report_registered_example = report_registered willing numbers (willing-All properties)
