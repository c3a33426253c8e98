-- ===== src/Host/Laws.antt =====
-- What is listed of the environments.
use rmond_drs.Base.{
  ℕ, ◌≡◌, refl, ap, sym, ◌∙◌, true, false, List, [], ◌∷◌, ◌++◌, map, Option, none, some,
}
use mathlib.Core.List.{append_assoc, append-nil}
use rmond_drs.Ve.{Types}
use rmond_drs.Host.{Listed, make_listed, push, list_params, list}

-- The environments that the handles make, in their order.
abbrev pub made : Types → List Listed → List (List ℕ)
made k [] = []
made k (u ∷ us) = push (make_listed k u) [] ++ made k us

push-append : (x : Option (List ℕ)) (dst : List (List ℕ)) → push x dst ≡ dst ++ push x []
push-append none dst = sym (append-nil dst)
push-append (some x) dst = refl

list_params-made :
    (k : Types) (us : List Listed) (dst : List (List ℕ))
    → list_params k (map some us) dst ≡ (dst ++ made k us, false)
unfolding list_params
list_params-made k [] dst = ap (λ d. (d, false)) (sym (append-nil dst))
list_params-made k (u ∷ us) dst =
    list_params-made k us (push (make_listed k u) dst)
    ∙ ap (λ d. (d, false))
        (ap (λ d. d ++ made k us) (push-append (make_listed k u) dst)
          ∙ append_assoc dst (push (make_listed k u) []) (made k us))

list_params-failed :
    (k : Types) (us : List Listed) (rest : List (Option Listed)) (dst : List (List ℕ))
    → list_params k (map some us ++ none ∷ rest) dst ≡ (dst ++ made k us, true)
unfolding list_params
list_params-failed k [] rest dst = ap (λ d. (d, true)) (sym (append-nil dst))
list_params-failed k (u ∷ us) rest dst =
    list_params-failed k us rest (push (make_listed k u) dst)
    ∙ ap (λ d. (d, true))
        (ap (λ d. d ++ made k us) (push-append (make_listed k u) dst)
          ∙ append_assoc dst (push (make_listed k u) []) (made k us))

-- A list of the environments succeeds where the job does and every parameter can be read: it has those
-- that can be made, in order. It fails where a parameter cannot be read, with those before it, or where
-- the job fails, with none.
pub list_lem :
    (k : Types) (us : List Listed) (rest : List (Option Listed))
    → (list k true true true (some (map some us)) [] ≡ (made k us, false))
      × (list k true true true (some (map some us ++ none ∷ rest)) [] ≡ (made k us, true))
      × (list k false true true (some (map some us)) [] ≡ ([], true))
      × (list k true false true (some (map some us)) [] ≡ ([], true))
      × (list k true true false (some (map some us)) [] ≡ ([], true))
      × (list k true true true none [] ≡ ([], true))
unfolding list
list_lem k us rest =
    (list_params-made k us [], list_params-failed k us rest [], refl, refl, refl, refl)
