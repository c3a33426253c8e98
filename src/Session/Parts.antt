-- ===== src/Session/Parts.antt =====
-- How `Inform::push` divides a report.
use rmond_drs.Base.{
  ℕ, ◌+◌, ◌<◌, ◌≡◌, refl, sym, ap, ◌∙◌, ltb, List, [], ◌∷◌, ◌++◌, arith, Bool-cases, inl, inr,
  length, length-append, map, subst,
}
use mathlib.Core.List.{append_assoc, append-nil}
use mathlib.Core.Path.{ap₂}
use rmond_drs.Value.{Chain}
use rmond_drs.Value.Laws.{flat}
use rmond_drs.Session.{parts}

-- The parts, one after the other, are the whole report: nothing is dropped, doubled or reordered.
flat-parts_from :
    (n i : ℕ) (sofar : Chain) (vs : List Chain) → flat (parts n sofar i vs) ≡ sofar ++ flat vs
unfolding parts
flat-parts_from n i sofar [] = refl
flat-parts_from n i sofar ([] ∷ vs) = flat-parts_from n i sofar vs
flat-parts_from n i sofar ((v ∷ c) ∷ vs) = elim (Bool-cases (ltb (i + 1) n)) [
  | inl e ↦
      rw e (flat-parts_from n (i + 1) (sofar ++ v ∷ c) vs ∙ append_assoc sofar (v ∷ c) (flat vs))
  | inr e ↦ rw e (
      ap (◌++◌ (sofar ++ v ∷ c)) (flat-parts_from n 0 [] vs) ∙ append_assoc sofar (v ∷ c) (flat vs))
]

flat-parts : (n : ℕ) (vs : List Chain) → flat (parts n [] 0 vs) ≡ flat vs
flat-parts n vs = flat-parts_from n 0 [] vs

-- The providers that made something.
abbrev pub made : List Chain → List Chain
made [] = []
made ([] ∷ vs) = made vs
made ((v ∷ c) ∷ vs) = (v ∷ c) ∷ made vs

abbrev pub concat : List (List Chain) → List Chain
concat [] = []
concat (g ∷ gs) = g ++ concat gs

-- Every group has n chains, but the last one, which has fewer.
abbrev pub Full : ℕ → List (List Chain) → Type 0
Full n [] = ⊥
Full n (g ∷ []) = length g < n
Full n (g ∷ h ∷ gs) = (length g ≡ n) × Full n (h ∷ gs)

abbrev Divided : ℕ → List Chain → List Chain → List Chain → Type 0
Divided n ps g vs =
    (gs : List (List Chain)) × (ps ≡ map flat gs) × (concat gs ≡ g ++ made vs) × Full n gs

flat-append : (g : List Chain) (c : Chain) → flat (g ++ c ∷ []) ≡ flat g ++ c
flat-append [] c = append-nil c
flat-append (d ∷ g) c = ap (◌++◌ d) (flat-append g c) ∙ sym (append_assoc d (flat g) c)

cons-Full :
    (n : ℕ) (g : List Chain) (gs : List (List Chain)) → length g ≡ n → Full n gs → Full n (g ∷ gs)
cons-Full n g [] e f = absurd f
cons-Full n g (h ∷ gs) e f = (e, f)

parts-Divided :
    (n : ℕ) (g : List Chain) (vs : List Chain)
    → length g < n
    → Divided n (parts n (flat g) (length g) vs) g vs
unfolding parts
parts-Divided n g [] h = (g ∷ [], refl, refl, h)
parts-Divided n g ([] ∷ vs) h = parts-Divided n g vs h
parts-Divided n g ((v ∷ c) ∷ vs) h = elim (Bool-cases (ltb (length g + 1) n)) [
  | inl e ↦ rw e (
      grown
        (parts-Divided n (g ++ (v ∷ c) ∷ []) vs (ground (arith, length-append g ((v ∷ c) ∷ [])))))
  | inr e ↦ rw e (
      closed (ground (arith, length-append g ((v ∷ c) ∷ []))) (parts-Divided n [] vs (omega arith)))
]
  where
    grown :
        Divided n
          (parts n (flat (g ++ (v ∷ c) ∷ [])) (length (g ++ (v ∷ c) ∷ [])) vs)
          (g ++ (v ∷ c) ∷ [])
          vs
        → Divided n (parts n (flat g ++ v ∷ c) (length g + 1) vs) g ((v ∷ c) ∷ vs)
    grown (gs, p, q, f) = (
      gs,
      subst (λ i. parts n (flat g ++ v ∷ c) i vs ≡ map flat gs) (length-append g ((v ∷ c) ∷ []))
          (subst (λ s. parts n s (length (g ++ (v ∷ c) ∷ [])) vs ≡ map flat gs)
            (flat-append g (v ∷ c)) p),
      q ∙ append_assoc g ((v ∷ c) ∷ []) (made vs),
      f,
    )

    closed :
        length (g ++ (v ∷ c) ∷ []) ≡ n
        → Divided n (parts n [] 0 vs) [] vs
        → Divided n ((flat g ++ v ∷ c) ∷ parts n [] 0 vs) g ((v ∷ c) ∷ vs)
    closed size (gs, p, q, f) = (
      (g ++ (v ∷ c) ∷ []) ∷ gs,
      ap₂ (λ a b. a ∷ b) (sym (flat-append g (v ∷ c))) p,
      append_assoc g ((v ∷ c) ∷ []) (concat gs) ∙ ap (λ z. g ++ (v ∷ c) ∷ z) q,
      cons-Full n (g ++ (v ∷ c) ∷ []) gs size f,
    )

-- For a positive n, the parts are the chains of the providers that made something, n providers to
-- each part but the last one, which has fewer than n.
pub parts-Full :
    (n : ℕ) (vs : List Chain)
    → 0 < n
    → (gs : List (List Chain)) × (parts n [] 0 vs ≡ map flat gs) × (concat gs ≡ made vs) × Full n gs
parts-Full n vs h = parts-Divided n [] vs h
