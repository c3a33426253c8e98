-- ===== src/Devices/Laws.antt =====
-- A loop over devices sees each one that can be taken, the last one first.
use rmond_drs.Base.{
  ℕ, zero, suc, ◌<◌, ◌==◌, ◌≡◌, refl, ap, subst, sym, ◌∙◌, ◌⊎◌, List, [], ◌∷◌, ◌++◌, Option, none,
  some, arith, length, Option-cases, inl, inr, Bool-cases, ==_iff,
}
use rmond_drs.Devices.{
  increment, begin, at_end, add_value, traverse, each, nth, typed, take, devices,
}

module _ {D : Type 0} where
  -- What can be taken of the first n, the last one first.
  abbrev pub descending : (ℕ → Option D) → ℕ → List D
  descending take zero = []
  descending take (suc n) = add_value (take n) (descending take n)

  traverse-increment :
      (take : ℕ → Option D) (n fuel : ℕ)
      → n < fuel
      → traverse take fuel (increment take n) ≡ descending take n
  unfolding traverse increment at_end
  traverse-increment take n zero l = absurd (omega (arith, l))
  traverse-increment take zero (suc fuel) l = refl
  traverse-increment take (suc n) (suc fuel) l = elim (Option-cases (take n)) [
    | inl e ↦ rw (e, increment, traverse-increment take n (suc fuel) (omega (arith, l))) refl
    | inr (d, e) ↦ rw (e, increment, traverse-increment take n fuel (omega (arith, l))) refl
  ]

  each-descending :
      (take : ℕ → Option D) (count fuel : ℕ)
      → count < fuel
      → (each take count ≡ descending take count)
        × (traverse take fuel (begin take count) ≡ each take count)
  unfolding each begin
  each-descending take count fuel l = (
    traverse-increment take count (suc count) (omega arith),
    traverse-increment take count fuel l
        ∙ sym (traverse-increment take count (suc count) (omega arith)),
  )

  add_value-append : (o : Option D) (xs ys : List D) → add_value o xs ++ ys ≡ add_value o (xs ++ ys)
  add_value-append none xs ys = refl
  add_value-append (some d) xs ys = refl

  descending-shift :
      (f : ℕ → Option D) (n : ℕ)
      → descending f (suc n) ≡ descending (λ i. f (suc i)) n ++ add_value (f 0) []
  descending-shift f zero = refl
  descending-shift f (suc n) =
      ap (add_value (f (suc n))) (descending-shift f n)
      ∙ sym (add_value-append (f (suc n)) (descending (λ i. f (suc i)) n) (add_value (f 0) []))

  -- The devices of a type in a list, the last one first.
  abbrev pub backwards : ℕ → (D → Option ℕ) → List D → List D
  backwards t type [] = []
  backwards t type (d ∷ ds) = backwards t type ds ++ add_value (typed t type (some d)) []

  descending-take :
      (t : ℕ) (type : D → Option ℕ) (ds : List D)
      → descending (take t type ds) (length ds) ≡ backwards t type ds
  unfolding take nth
  descending-take t type [] = refl
  descending-take t type (d ∷ ds) =
      descending-shift (λ n. take t type (d ∷ ds) n) (length ds)
      ∙ ap (λ xs. xs ++ add_value (typed t type (some d)) []) (descending-take t type ds)

  -- A loop over the devices of an environment sees those of the type, each once, from the last of the
  -- list to the first; it ends, and more fuel changes nothing.
  pub devices-backwards :
      (t fuel : ℕ) (type : D → Option ℕ) (ds : List D)
      → length ds < fuel
      → (devices t type ds ≡ backwards t type ds)
        × (traverse (take t type ds) fuel (begin (take t type ds) (length ds)) ≡ devices t type ds)
  unfolding devices
  devices-backwards t fuel type ds l = (
    (each-descending (take t type ds) (length ds) fuel l).0 ∙ descending-take t type ds,
    (each-descending (take t type ds) (length ds) fuel l).1,
  )

  -- An element of a list.
  abbrev pub In : D → List D → Type 0
  In x [] = ⊥
  In x (y ∷ ys) = (x ≡ y) ⊎ In x ys

  In-append : (x : D) (xs ys : List D) → In x (xs ++ ys) → In x xs ⊎ In x ys
  In-append x [] ys h = inr h
  In-append x (y ∷ xs) ys (inl e) = inl (inl e)
  In-append x (y ∷ xs) ys (inr h) = elim (In-append x xs ys h) [
    | inl g ↦ inl (inr g)
    | inr g ↦ inr g
  ]

  typed-cases :
      (t : ℕ) (type : D → Option ℕ) (d : D)
      → (typed t type (some d) ≡ none) ⊎ ((typed t type (some d) ≡ some d) × (type d ≡ some t))
  typed-cases t type d = elim (Option-cases (type d)) [
    | inl e ↦ inl (ground (arith, e))
    | inr (k, e) ↦ elim (Bool-cases (k == t)) [
      | inl h ↦ inr (ground (arith, e, h), e ∙ ap some ((==_iff k t).0 h))
      | inr h ↦ inl (ground (arith, e, h))
    ]
  ]

  -- A device that a loop sees stands in the list, and is of the type.
  In-backwards :
      (t : ℕ) (type : D → Option ℕ) (x : D) (ds : List D)
      → In x (backwards t type ds)
      → In x ds × (type x ≡ some t)
  In-backwards t type x [] h = absurd h
  In-backwards t type x (d ∷ ds) h =
      elim (In-append x (backwards t type ds) (add_value (typed t type (some d)) []) h) [
        | inl g ↦ let (i, e) = In-backwards t type x ds g in (inr i, e)
        | inr g ↦ elim (typed-cases t type d) [
          | inl e ↦ absurd (subst (λ o. In x (add_value o [])) e g)
          | inr (e, f) ↦ elim (subst (λ o. In x (add_value o [])) e g) [
            | inl q ↦ (inl q, ap type q ∙ f)
            | inr q ↦ absurd q
          ]
        ]
      ]

  pub In-devices :
      (t : ℕ) (type : D → Option ℕ) (x : D) (ds : List D)
      → In x (devices t type ds)
      → In x ds × (type x ≡ some t)
  In-devices t type x ds h =
      In-backwards t type x ds
        (subst (In x) (devices-backwards t (suc (length ds)) type ds (omega arith)).0 h)
