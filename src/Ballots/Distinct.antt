-- ===== src/Ballots/Distinct.antt =====
-- Lists without repeats, and how two of them within a small set overlap.
use banyan.Base.{
  suc, ◌+◌, ◌≤◌, ◌<◌, ap, subst, List-cases, ◌≡◌, ◌≢◌, refl, sym, ◌∙◌, ◌⊎◌, inl, inr, List, [], ◌∷◌,
  ◌++◌, Bool, true, false, arith, if◌then◌else◌, length, length-append, In, In-append, Eq,
  Bool-cases,
}

abbrev pub IsDistinct : {A : Type 0} → List A → Type 0
IsDistinct [] = Unit
IsDistinct (x ∷ xs) = (¬ In x xs) × IsDistinct xs

-- Every member of the first list is one of the second.
abbrev pub Within : {A : Type 0} → List A → List A → Type 0
Within {A} xs ys = (a : A) → In a xs → In a ys

module _ {A : Type 0} (e : Eq A) where
  -- The members of `ys` that `test` keeps.
  pub member : A → List A → Bool
  member a [] = false
  member a (x ∷ xs) = if e.beq x a then true else member a xs

  member-In : (a : A) (xs : List A) → member a xs ≡ true → In a xs
  unfolding member
  member-In a [] h = absurd (cc)
  member-In a (x ∷ xs) h = elim (Bool-cases (e.beq x a)) [
    | inl same ↦ inl ((e.beq_iff x a).0 same)
    | inr other ↦ inr (member-In a xs (rw other at h))
  ]

  In-member : (a : A) (xs : List A) → In a xs → member a xs ≡ true
  unfolding member
  In-member a [] h = absurd h
  In-member a (x ∷ xs) (inl same) = rw ((e.beq_iff x a).1 same) refl
  In-member a (x ∷ xs) (inr h) = ground (arith, In-member a xs h)

  -- The voters of `xs` that also stand in `ys`, and those that do not.
  pub common : List A → List A → List A
  common [] ys = []
  common (x ∷ xs) ys = if member x ys then x ∷ common xs ys else common xs ys

  pub rest : List A → List A → List A
  rest [] ys = []
  rest (x ∷ xs) ys = if member x ys then rest xs ys else x ∷ rest xs ys

  pub common-In : (a : A) (xs ys : List A) → In a (common xs ys) → In a xs × In a ys
  unfolding common
  common-In a [] ys h = absurd h
  common-In a (x ∷ xs) ys h = elim (Bool-cases (member x ys)) [
    | inl m ↦ elim (let q : (x ≡ a) ⊎ In a (common xs ys) = rw m at h in q) [
      | inl same ↦ (inl same, rw same at (member-In x ys m))
      | inr more ↦ let (l, r) = common-In a xs ys more in (inr l, r)
    ]
    | inr n ↦ let (l, r) = common-In a xs ys (rw n at h) in (inr l, r)
  ]

  length-common-rest : (xs ys : List A) → length (common xs ys) + length (rest xs ys) ≡ length xs
  unfolding common rest
  length-common-rest [] ys = omega arith
  length-common-rest (x ∷ xs) ys = ground (arith, length-common-rest xs ys)

  In-rest : (a : A) (xs ys : List A) → In a (rest xs ys) → In a xs × (¬ In a ys)
  unfolding rest
  In-rest a [] ys h = absurd h
  In-rest a (x ∷ xs) ys h = elim (Bool-cases (member x ys)) [
    | inl m ↦ let (l, r) = In-rest a xs ys (rw m at h) in (inr l, r)
    | inr n ↦ elim (let q : (x ≡ a) ⊎ In a (rest xs ys) = rw n at h in q) [
      | inl same ↦ (inl same, λ there. cc (In-member x ys (rw (← same) at there), n))
      | inr more ↦ let (l, r) = In-rest a xs ys more in (inr l, r)
    ]
  ]

  rest-IsDistinct : (xs ys : List A) → IsDistinct xs → IsDistinct (rest xs ys)
  unfolding rest
  rest-IsDistinct [] ys d = tt
  rest-IsDistinct (x ∷ xs) ys d = elim (Bool-cases (member x ys)) [
    | inl m ↦ rw m (rest-IsDistinct xs ys d.1)
    | inr n ↦ rw n ((λ h. d.0 (In-rest x xs ys h).0), rest-IsDistinct xs ys d.1)
  ]

  pub common-IsDistinct : (xs ys : List A) → IsDistinct xs → IsDistinct (common xs ys)
  unfolding common
  common-IsDistinct [] ys d = tt
  common-IsDistinct (x ∷ xs) ys d = elim (Bool-cases (member x ys)) [
    | inl m ↦ rw m ((λ h. d.0 (common-In x xs ys h).0), common-IsDistinct xs ys d.1)
    | inr n ↦ rw n (common-IsDistinct xs ys d.1)
  ]

  append-IsDistinct :
      (xs ys : List A)
      → IsDistinct xs
      → IsDistinct ys
      → ((a : A) → In a xs → ¬ In a ys)
      → IsDistinct (xs ++ ys)
  append-IsDistinct [] ys d f apart = f
  append-IsDistinct (x ∷ xs) ys d f apart = (
    (λ h. elim (In-append x xs ys h) [ inl l ↦ d.0 l | inr r ↦ apart x (inl refl) r ]),
    append-IsDistinct xs ys d.1 f (λ a h. apart a (inr h)),
  )

  remove : A → List A → List A
  remove a [] = []
  remove a (x ∷ xs) = if e.beq x a then xs else x ∷ remove a xs

  length-remove : (a : A) (xs : List A) → In a xs → suc (length (remove a xs)) ≡ length xs
  unfolding remove
  length-remove a [] h = absurd h
  length-remove a (x ∷ xs) (inl same) = rw ((e.beq_iff x a).1 same) refl
  length-remove a (x ∷ xs) (inr h) = ground (arith, length-remove a xs h)

  In-remove : (a b : A) (xs : List A) → In b xs → a ≢ b → In b (remove a xs)
  unfolding remove
  In-remove a b [] h n = absurd h
  In-remove a b (x ∷ xs) h n = elim (Bool-cases (e.beq x a)) [
    | inl hit ↦
        rw hit
          (elim h [ inl same ↦ absurd (n (sym ((e.beq_iff x a).0 hit) ∙ same)) | inr more ↦ more ])
    | inr miss ↦ rw miss (elim h [ inl same ↦ inl same | inr more ↦ inr (In-remove a b xs more n) ])
  ]

  -- The pigeonhole principle.
  pub length_of_Within : (xs ys : List A) → IsDistinct xs → Within xs ys → length xs ≤ length ys
  length_of_Within [] ys d w = omega arith
  length_of_Within (x ∷ xs) ys d w = omega (
    arith,
    length-remove x ys (w x (inl refl)),
    length_of_Within xs (remove x ys) d.1
        (λ a h. In-remove x a ys (w a (inr h)) (λ same. d.0 (rw same h))),
  )

  -- Two distinct lists within a set of `n` overlap in what their lengths exceed `n` by.
  pub overlap :
      (set xs ys : List A)
      → IsDistinct xs
      → IsDistinct ys
      → Within xs set
      → Within ys set
      → length xs + length ys ≤ length set + length (common ys xs)
  overlap set xs ys dx dy wx wy = omega (
    arith,
    length-common-rest ys xs,
    length-append xs (rest ys xs),
    length_of_Within (xs ++ rest ys xs) set
        (append-IsDistinct xs (rest ys xs) dx (rest-IsDistinct ys xs dy)
          (λ a h k. (In-rest a ys xs k).1 h))
        (λ a h. elim (In-append a xs (rest ys xs) h) [
          | inl l ↦ wx a l
          | inr r ↦ wy a (In-rest a ys xs r).0
        ]),
  )

  -- A distinct list that is longer than another has a member that the other lacks.
  pub outsider :
      (xs ys : List A) → IsDistinct xs → length ys < length xs → (a : A) × In a xs × (¬ In a ys)
  outsider xs ys d longer =
      let fits =
        length_of_Within (common xs ys) ys (common-IsDistinct xs ys d)
          (λ a h. (common-In a xs ys h).1) in
      elim (List-cases (rest xs ys)) [
        | inl none_left ↦
            absurd (omega (arith, length-common-rest xs ys, fits, ap (length {A = A}) none_left))
        | inr (a, more, e) ↦
            let (there, lacks) = In-rest a xs ys (subst (In a) (sym e) (inl refl)) in
            (a, there, lacks)
      ]
