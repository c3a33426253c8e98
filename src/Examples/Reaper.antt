-- ===== src/Examples/Reaper.antt =====
-- The life of sinks at concrete inputs.
use rmond_drs.Base.{false, ◌+◌, ◌≡◌, refl, if◌then◌else◌, [], ◌∷◌, ◌++◌, some, arith, replicate}
use rmond_drs.Table.{lock}
use rmond_drs.Table.Laws.{IsValid}
use rmond_drs.Sinks.{World, reaper_do}
use rmond_drs.Sinks.Countdown.{informs, informs_exact}
use rmond_drs.Sinks.Reaping.{member, survivor, survivors, reaper_do_lem}
use rmond_drs.Examples.{lex_order, memory, first_sink, two_sinks, one_metric}
use rmond_drs.Examples.Containers.{two_sinks-IsValid}

-- Both sinks are tracked; the second one has no acks left, and one metric.
abbrev both : World
both = record {
  sinks = two_sinks;
  metrix = one_metric;
  tracked = 0 ∷ 1 ∷ [];
  informed = [];
  scheduled = [];
}

informs_exact_example :
    ((informs (λ k. false) (2 + 3) 0 both).informed ≡ replicate 2 0 ++ [])
    × (lock 0 (informs (λ k. false) (2 + 3) 0 both).sinks.rows
        ≡ some (record first_sink { cells = record first_sink.cells { acks = 0 } }))
unfolding lock
informs_exact_example = informs_exact (λ k. false) 2 3 0 both first_sink refl refl (omega arith)

reaper_do_lem_example :
    IsValid (reaper_do memory both).sinks
    × (lock 1 (reaper_do memory both).sinks.rows ≡ (
        if member 1 (0 ∷ 1 ∷ []) then survivor (lock 1 two_sinks.rows) else lock 1 two_sinks.rows))
    × ((reaper_do memory both).tracked ≡ survivors two_sinks.rows (0 ∷ 1 ∷ []))
reaper_do_lem_example = reaper_do_lem memory both 1 two_sinks-IsValid
