-- ===== src/Examples/Containers.antt =====
-- The container, tables, dispatch and value policies at concrete inputs.
use rmond_drs.Base.{ℕ, ◌+◌, ◌≡◌, refl, false, if◌then◌else◌, List, [], ◌∷◌, none, some, ◌==◌, arith}
use rmond_drs.Oid.{Oid, less, lex}
use rmond_drs.Container
use rmond_drs.Container.{Memory, minus_one, size, get_subset}
use rmond_drs.Container.Laws.{Sorted, insert_lem, same}
use rmond_drs.Container.Walk.{walk, walk_all}
use rmond_drs.Table.{find, erase, lock}
use rmond_drs.Table.Laws.{IsValid, erase_lem}
use rmond_drs.Examples.{lex_order, big_endian, second_sink, two_sinks}

abbrev keys : List (Oid × ℕ)
keys = (1 ∷ [], 10) ∷ (1 ∷ 4 ∷ [], 20) ∷ (3 ∷ [], 30) ∷ []

keys-Sorted : Sorted keys
unfolding less lex lex_order
keys-Sorted = ((refl, (refl, tt)), ((refl, tt), (tt, tt)))

insert_lem_example :
    Sorted (Container.insert (2 ∷ []) 40 keys).0
    × ((Container.insert (2 ∷ []) 40 keys).1 ≡ 0)
    × (Container.find (2 ∷ []) (Container.insert (2 ∷ []) 40 keys).0
        ≡ (elim (Container.find (2 ∷ []) keys) [
          | some w ↦ some w
          | none ↦ if same (2 ∷ []) (2 ∷ []) then some 40 else none
        ]))
    × (size (Container.insert (2 ∷ []) 40 keys).0
        ≡ (elim (Container.find (2 ∷ []) keys) [ some w ↦ size keys | none ↦ size keys + 1 ]))
insert_lem_example = insert_lem (2 ∷ []) (2 ∷ []) 40 keys keys-Sorted

walk_all_example : walk (size keys) none keys ≡ keys
walk_all_example = walk_all keys keys-Sorted

pub two_sinks-IsValid : IsValid two_sinks
unfolding less lex lex_order
two_sinks-IsValid = record {
  sorted = ((refl, tt), (tt, tt));
  keyed = (refl, (refl, tt));
  distinct = ((refl, tt), (tt, tt));
  below = (omega arith, (omega arith, tt));
}

found_second : find (2 ∷ 9 ∷ []) two_sinks ≡ some second_sink
unfolding find Container.find less lex lex_order
found_second = refl

erase_lem_example :
    ((erase second_sink two_sinks).1 ≡ false)
    × (find (1 ∷ 9 ∷ []) (erase second_sink two_sinks).0
        ≡ (if same (1 ∷ 9 ∷ []) (2 ∷ 9 ∷ []) then none else find (1 ∷ 9 ∷ []) two_sinks))
    × (lock 0 (erase second_sink two_sinks).0.rows
        ≡ (if 1 == 0 then none else lock 0 two_sinks.rows))
erase_lem_example =
    erase_lem second_sink second_sink two_sinks (1 ∷ 9 ∷ []) 0 two_sinks-IsValid found_second
