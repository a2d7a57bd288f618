-- ===== src/Rules/Engine/Walk.antt =====
-- What Evaluate depends on, and what it computes.
use mathlib.Core.List.{append-nil, append_assoc}
use llama_labels.Common.{
  ℕ, ◌≤◌, ◌<◌, ◌≡◌, refl, ap, sym, Bool, true, false, ◌&&◌, ◌||◌, List, [], ◌∷◌, ◌++◌, map, arith,
  leb, nat_eq, keep, any, All, inl, inr, Bool-cases, if◌then◌else◌, ◌∙◌,
}
use llama_labels.Rules.{Action, Rule, Texts}
use llama_labels.Rules.Matching.{EvalInput, fires}
use llama_labels.Rules.Engine.{
  Outcome, place, sort_stable, stops, with_rule, walk, no_outcome, evaluate,
}
use llama_labels.Rules.Engine.Sorting.{
  at_order, IsSorted, sort-IsSorted, at_order-sort, sorted_unique,
}

keep_comm : (p q : Rule → Bool) (xs : List Rule) → keep p (keep q xs) ≡ keep q (keep p xs)
keep_comm p q [] = refl
keep_comm p q (x ∷ xs) = ground (arith, keep_comm p q xs)

keep-All :
    (n : ℕ) (p : Rule → Bool) (xs : List Rule)
    → All (λ x. n ≤ x.order) xs
    → All (λ x. n ≤ x.order) (keep p xs)
keep-All n p [] h = tt
keep-All n p (x ∷ xs) h = elim (Bool-cases (p x)) [
  | inl e ↦ rw e (h.0, keep-All n p xs h.1)
  | inr e ↦ rw e (keep-All n p xs h.1)
]

keep-IsSorted : (p : Rule → Bool) (xs : List Rule) → IsSorted xs → IsSorted (keep p xs)
keep-IsSorted p [] h = tt
keep-IsSorted p (x ∷ xs) h = elim (Bool-cases (p x)) [
  | inl e ↦ rw e (keep-All x.order p xs h.0, keep-IsSorted p xs h.1)
  | inr e ↦ rw e (keep-IsSorted p xs h.1)
]

-- Choosing rules and sorting them commute.
sort-keep : (p : Rule → Bool) (rs : List Rule) → sort_stable (keep p rs) ≡ keep p (sort_stable rs)
sort-keep p rs =
    sorted_unique _ _ (sort-IsSorted (keep p rs))
      (keep-IsSorted p (sort_stable rs) (sort-IsSorted rs))
      λ n.
        at_order-sort n (keep p rs)
        ∙ keep_comm _ p rs
        ∙ ap (keep p) (sym (at_order-sort n rs))
        ∙ keep_comm p _ (sort_stable rs)

-- The rules up to and including the first that stops.
abbrev pub up_to_stop : List Rule → List Rule
up_to_stop [] = []
up_to_stop (r ∷ rs) = if stops r then r ∷ [] else r ∷ up_to_stop rs

abbrev pub actions_of : List Rule → List Action
actions_of [] = []
actions_of (r ∷ rs) = r.actions ++ actions_of rs

abbrev pub outcome_of : List Rule → Outcome
outcome_of rs = record {
  matched = map (λ r. r.name) rs;
  applied = actions_of rs;
  stopped = any stops rs;
}

abbrev joined : Outcome → Outcome → Outcome
joined o o' = record {
  matched = o.matched ++ o'.matched;
  applied = o.applied ++ o'.applied;
  stopped = o.stopped || o'.stopped;
}

module _ (texts : Texts) (input : EvalInput) where
  walk-keep :
      (o : Outcome) (rs : List Rule)
      → walk texts input o rs ≡ walk texts input o (keep (fires texts input) rs)
  walk-keep o [] = refl
  walk-keep o (r ∷ rs) = ground (arith, walk-keep o rs, walk-keep (with_rule o r) rs)

  if-true : {A : Type 0} (b : Bool) (x y : A) → b ≡ true → (if b then x else y) ≡ x
  if-true b x y e = rw e refl

  if-false : {A : Type 0} (b : Bool) (x y : A) → b ≡ false → (if b then x else y) ≡ y
  if-false b x y e = rw e refl

  walk_on :
      (o : Outcome) (r : Rule) (rs : List Rule)
      → fires texts input r ≡ true
      → (with_rule o r).stopped ≡ false
      → walk texts input o (r ∷ rs) ≡ walk texts input (with_rule o r) rs
  walk_on o r rs f s = if-true (fires texts input r) _ _ f ∙ if-false (with_rule o r).stopped _ _ s

  walk_end :
      (o : Outcome) (r : Rule) (rs : List Rule)
      → fires texts input r ≡ true
      → (with_rule o r).stopped ≡ true
      → walk texts input o (r ∷ rs) ≡ with_rule o r
  walk_end o r rs f s = if-true (fires texts input r) _ _ f ∙ if-true (with_rule o r).stopped _ _ s

  or_false : (b : Bool) → (b || false) ≡ b
  or_false b = ground arith

  walk-joined :
      (o : Outcome) (rs : List Rule)
      → o.stopped ≡ false
      → walk texts input o rs ≡ joined o (outcome_of (up_to_stop (keep (fires texts input) rs)))
  walk-joined o [] h = simp (append-nil, or_false o.stopped) refl
  walk-joined o (r ∷ rs) h = elim (Bool-cases (fires texts input r)) [
    | inl f ↦ elim (Bool-cases (stops r)) [
      | inl s ↦ simp (f, h, s, append-nil) refl
      | inr s ↦
          walk_on o r rs f (simp (h, s) refl)
          ∙ walk-joined (with_rule o r) rs (simp (h, s) refl)
          ∙ simp (h, f, s, append_assoc) refl
    ]
    | inr f ↦ simp f (walk-joined o rs h)
  ]

  -- Evaluate is: take the rules that fire, sort them by Order, stop after the first that says so, and
  -- collect the names and the actions of these.
  pub evaluate-outcome_of :
      (rules : List Rule)
      → evaluate texts input rules
        ≡ outcome_of (up_to_stop (sort_stable (keep (fires texts input) rules)))
  unfolding evaluate
  evaluate-outcome_of rules =
      rw (sort-keep (fires texts input) rules) (walk-joined no_outcome (sort_stable rules) refl)

  -- Only the relative position of rules with the same Order matters.
  pub evaluate-at_order :
      (xs ys : List Rule)
      → ((n : ℕ) → at_order n xs ≡ at_order n ys)
      → evaluate texts input xs ≡ evaluate texts input ys
  unfolding evaluate
  evaluate-at_order xs ys same = ap (walk texts input no_outcome) (
      sorted_unique _ _ (sort-IsSorted xs) (sort-IsSorted ys)
        λ n. at_order-sort n xs ∙ same n ∙ sym (at_order-sort n ys))

  -- The rule fires, stops, and stands at the Order.
  abbrev pub stops_at : ℕ → Rule → Bool
  stops_at n r = fires texts input r && (stops r && nat_eq r.order n)

  any-place : (p : Rule → Bool) (r : Rule) (xs : List Rule) → any p (place r xs) ≡ (p r || any p xs)
  any-place p r [] = refl
  any-place p r (x ∷ xs) = ground (arith, any-place p r xs)

  any-sort : (p : Rule → Bool) (rs : List Rule) → any p (sort_stable rs) ≡ any p rs
  any-sort p [] = refl
  any-sort p (r ∷ rs) = any-place p r (sort_stable rs) ∙ ap (λ b. p r || b) (any-sort p rs)

  any-above :
      (m n : ℕ) (xs : List Rule) → n < m → All (λ x. m ≤ x.order) xs → any (stops_at n) xs ≡ false
  any-above m n [] lt h = refl
  any-above m n (x ∷ xs) lt h = ground (arith, h.0, any-above m n xs lt h.1)

  true≢false : ¬ (true ≡ false)
  true≢false e = ground (arith, e)

  walk-up_to :
      (n : ℕ) (o : Outcome) (rs : List Rule)
      → IsSorted rs
      → any (stops_at n) rs ≡ true
      → walk texts input o rs ≡ walk texts input o (keep (λ r. leb r.order n) rs)
  walk-up_to n o [] sorted h = refl
  walk-up_to n o (r ∷ rs) sorted h = elim (Bool-cases (leb r.order n)) [
    | inl e ↦
        let later : stops_at n r ≡ false → any (stops_at n) rs ≡ true =
          λ no. ground (arith, no, h) in
        elim (Bool-cases (fires texts input r)) [
          | inl f ↦ elim (Bool-cases (with_rule o r).stopped) [
            | inl s ↦ rw e (walk_end o r rs f s ∙ sym (walk_end o r _ f s))
            | inr s ↦
                let rest = walk-up_to n (with_rule o r) rs sorted.1 (later (ground (arith, s))) in
                rw e (walk_on o r rs f s ∙ rest ∙ sym (walk_on o r _ f s))
          ]
          | inr f ↦ simp (e, f) (walk-up_to n o rs sorted.1 (later (ground (arith, f))))
        ]
    | inr e ↦
        let lt : n < r.order = ground (arith, e) in
        let none : any (stops_at n) (r ∷ rs) ≡ false =
          any-above r.order n (r ∷ rs) lt (omega arith, sorted.0) in
        absurd (true≢false (sym h ∙ none))
  ]

  -- Where a rule that stops fires at the Order `n`, no rule of a greater Order has any effect.
  pub evaluate-up_to :
      (n : ℕ) (rules : List Rule)
      → any (stops_at n) rules ≡ true
      → evaluate texts input rules ≡ evaluate texts input (keep (λ r. leb r.order n) rules)
  unfolding evaluate
  evaluate-up_to n rules h =
      walk-up_to n no_outcome (sort_stable rules) (sort-IsSorted rules)
        (any-sort (stops_at n) rules ∙ h)
      ∙ ap (walk texts input no_outcome) (sym (sort-keep (λ r. leb r.order n) rules))
