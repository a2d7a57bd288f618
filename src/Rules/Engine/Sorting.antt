-- ===== src/Rules/Engine/Sorting.antt =====
-- The order in which rules are walked: by Order, and in the list's order where that is equal.
use llama_labels.Common.{
  ℕ, ◌≤◌, ◌<◌, ◌≡◌, refl, sym, List, [], ◌∷◌, arith, leb, nat_eq, keep, All, inl, inr, Bool-cases,
  ◌∙◌,
}
use llama_labels.Rules.{Rule}
use llama_labels.Rules.Engine.{place, sort_stable}

-- The rules of one Order.
abbrev pub at_order : ℕ → List Rule → List Rule
at_order n rules = keep (λ r. nat_eq r.order n) rules

abbrev pub IsSorted : List Rule → Type 0
IsSorted [] = Unit
IsSorted (r ∷ rs) = All (λ x. r.order ≤ x.order) rs × IsSorted rs

place-All :
    (n : ℕ) (r : Rule) (xs : List Rule)
    → n ≤ r.order
    → All (λ x. n ≤ x.order) xs
    → All (λ x. n ≤ x.order) (place r xs)
place-All n r [] le h = (le, tt)
place-All n r (x ∷ xs) le h = elim (Bool-cases (leb r.order x.order)) [
  | inl e ↦ rw e (le, h)
  | inr e ↦ rw e (h.0, place-All n r xs le h.1)
]

raise : (m n : ℕ) (xs : List Rule) → m ≤ n → All (λ x. n ≤ x.order) xs → All (λ x. m ≤ x.order) xs
raise m n [] le h = tt
raise m n (x ∷ xs) le h = (omega (arith, le, h.0), raise m n xs le h.1)

place-IsSorted : (r : Rule) (xs : List Rule) → IsSorted xs → IsSorted (place r xs)
place-IsSorted r [] h = (tt, tt)
place-IsSorted r (x ∷ xs) h = elim (Bool-cases (leb r.order x.order)) [
  | inl e ↦
      let le : r.order ≤ x.order = ground (arith, e) in
      rw e ((le, raise r.order x.order xs le h.0), h)
  | inr e ↦ rw e (place-All x.order r xs (ground (arith, e)) h.0, place-IsSorted r xs h.1)
]

pub sort-IsSorted : (rs : List Rule) → IsSorted (sort_stable rs)
sort-IsSorted [] = tt
sort-IsSorted (r ∷ rs) = place-IsSorted r (sort_stable rs) (sort-IsSorted rs)

at_order-place : (n : ℕ) (r : Rule) (xs : List Rule) → at_order n (place r xs) ≡ at_order n (r ∷ xs)
at_order-place n r [] = refl
at_order-place n r (x ∷ xs) = ground (arith, at_order-place n r xs)

pub at_order-sort : (n : ℕ) (rs : List Rule) → at_order n (sort_stable rs) ≡ at_order n rs
at_order-sort n [] = refl
at_order-sort n (r ∷ rs) = at_order-place n r (sort_stable rs) ∙ ground (arith, at_order-sort n rs)

above_none : (m n : ℕ) (xs : List Rule) → m < n → All (λ x. n ≤ x.order) xs → at_order m xs ≡ []
above_none m n [] lt h = refl
above_none m n (x ∷ xs) lt h = ground (arith, h.0, above_none m n xs lt h.1)

at_own_order : (x : Rule) (xs : List Rule) → at_order x.order (x ∷ xs) ≡ x ∷ at_order x.order xs
at_own_order x xs = ground arith

-- The head of a sorted list is no higher than a rule that stands in the list.
head-le :
    (x y : Rule) (xs ys : List Rule)
    → IsSorted (y ∷ ys)
    → at_order x.order (x ∷ xs) ≡ at_order x.order (y ∷ ys)
    → y.order ≤ x.order
head-le x y xs ys h same = elim (Bool-cases (leb y.order x.order)) [
  | inl e ↦ ground (arith, e)
  | inr e ↦
      let lt : x.order < y.order = ground (arith, e) in
      let none : at_order x.order (y ∷ ys) ≡ [] =
        above_none x.order y.order (y ∷ ys) lt (omega arith, h.0) in
      absurd (cons-not-nil (sym (at_own_order x xs) ∙ (same ∙ none)))
]
  where
    cons-not-nil : {zs : List Rule} → ¬ (x ∷ zs ≡ [])
    cons-not-nil e = ground (arith, e)

-- Sorted lists with the same rules at every Order are equal.
pub sorted_unique :
    (xs ys : List Rule)
    → IsSorted xs
    → IsSorted ys
    → ((n : ℕ) → at_order n xs ≡ at_order n ys)
    → xs ≡ ys
sorted_unique [] [] hx hy same = refl
sorted_unique [] (y ∷ ys) hx hy same = ground (arith, same y.order, at_own_order y ys)
sorted_unique (x ∷ xs) [] hx hy same = ground (arith, same x.order, at_own_order x xs)
sorted_unique (x ∷ xs) (y ∷ ys) hx hy same =
    let one : x.order ≡ y.order =
      omega
        (arith, head-le x y xs ys hy (same x.order), head-le y x ys xs hx (sym (same y.order))) in
    let both : x ∷ at_order x.order xs ≡ y ∷ at_order x.order ys =
      ground (arith, one, same x.order, at_own_order x xs, at_own_order y ys) in
    let tail : (n : ℕ) → at_order n xs ≡ at_order n ys = λ n. ground (arith, one, both, same n) in
    cc (sorted_unique xs ys hx.1 hy.1 tail, both)
