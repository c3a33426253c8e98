-- ===== src/Examples/Cpus.antt =====
-- The rows of virtual CPUs at concrete inputs.
use rmond_drs.Base.{ℕ, ◌≡◌, refl, true, [], ◌∷◌, some, arith}
use rmond_drs.Oid.{less, lex}
use rmond_drs.Container
use rmond_drs.Tuple.{Tuple}
use rmond_drs.Table.{Table, find}
use rmond_drs.Table.Laws.{IsValid}
use rmond_drs.Perspective.{Cpu, Update, cpus, merge}
use rmond_drs.Perspective.Laws.{merge_keeps}
use rmond_drs.Examples.{lex_order, memory}

-- Two CPUs of the environment 5, which has only one by now.
abbrev cpu : ℕ → Tuple Cpu
cpu i = record { id = i; key = 5 ∷ i ∷ []; cells = record { ordinal = i; time = 100 } }

abbrev two_cpus : Table Cpu
two_cpus = record { rows = (5 ∷ 0 ∷ [], cpu 0) ∷ (5 ∷ 1 ∷ [], cpu 1) ∷ []; fresh = 2 }

abbrev one_left : Update
one_left = record { ordinals = []; ve = some (some 1, true) }

two_cpus-IsValid : IsValid two_cpus
unfolding less lex lex_order
two_cpus-IsValid = record {
  sorted = ((refl, tt), (tt, tt));
  keyed = (refl, (refl, tt));
  distinct = ((refl, tt), (tt, tt));
  below = (omega arith, (omega arith, tt));
}

second_cpu : find (5 ∷ 1 ∷ []) two_cpus ≡ some (cpu 1)
unfolding find Container.find less lex lex_order
second_cpu = refl

merge_keeps_example :
    find (5 ∷ 1 ∷ []) (merge (cpus (λ i. 5 ∷ i ∷ [])) memory (5 ∷ []) one_left two_cpus)
    ≡ some (cpu 1)
merge_keeps_example =
    merge_keeps (cpus (λ i. 5 ∷ i ∷ [])) memory (5 ∷ []) (5 ∷ 1 ∷ []) one_left two_cpus (cpu 1)
      two_cpus-IsValid (omega arith, (omega arith, tt)) refl refl second_cpu
