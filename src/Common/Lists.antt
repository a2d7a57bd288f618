-- ===== src/Common/Lists.antt =====
-- Lists measured by native numbers, under the library's names, and predicates over lists.
use Prim.Native.Nat.{ℕ, zero, suc, ◌+◌, ◌-◌, ◌≤◌}
use llama_labels.Common.Tests.{if◌then◌else◌}
use mathlib.Core.Bool.{Bool, true, false, ◌&&◌, ◌||◌}
use mathlib.Core.List.{List, [], ◌∷◌, ◌++◌}
use mathlib.Core.Option.{Option, none, some}
use mathlib.Core.Path.{◌≡◌}
use native.Mathlib.Omega.{arith}

module _ {ℓ} {A : Type ℓ} where
  abbrev pub length : List A → ℕ
  length [] = 0
  length (x ∷ xs) = suc (length xs)

  abbrev pub drop : ℕ → List A → List A
  drop zero xs = xs
  drop (suc n) [] = []
  drop (suc n) (x ∷ xs) = drop n xs

  -- The elements that pass a Boolean test, in order.
  abbrev pub keep : (A → Bool) → List A → List A
  keep p [] = []
  keep p (x ∷ xs) = let rest = keep p xs in if p x then x ∷ rest else rest

  -- Whether a Boolean test passes on some element.
  abbrev pub any : (A → Bool) → List A → Bool
  any p [] = false
  any p (x ∷ xs) = p x || any p xs

  pub length-append : (xs ys : List A) → length (xs ++ ys) ≡ length xs + length ys
  length-append [] ys = omega arith
  length-append (x ∷ xs) ys = omega (arith, length-append xs ys)

  pub length-drop : (n : ℕ) (xs : List A) → length (drop n xs) ≡ length xs - n
  length-drop zero xs = omega arith
  length-drop (suc n) [] = omega arith
  length-drop (suc n) (x ∷ xs) = omega (arith, length-drop n xs)

  pub length-keep-le : (p : A → Bool) (xs : List A) → length (keep p xs) ≤ length xs
  length-keep-le p [] = omega arith
  length-keep-le p (x ∷ xs) = ground (arith, length-keep-le p xs)

-- A predicate by recursion computes to tuples, which the tactics read and build.
module _ {ℓ κ} {A : Type ℓ} (P : A → Type κ) where
  abbrev pub All : List A → Type κ
  All [] = Unit
  All (y ∷ ys) = P y × All ys

  pub All-append : (xs ys : List A) → All xs → All ys → All (xs ++ ys)
  All-append [] ys hx hy = hy
  All-append (x ∷ xs) ys hx hy = (hx.0, All-append xs ys hx.1 hy)

  pub All-drop : (n : ℕ) (xs : List A) → All xs → All (drop n xs)
  All-drop zero xs h = h
  All-drop (suc n) [] h = h
  All-drop (suc n) (x ∷ xs) h = All-drop n xs h.1

-- The first element that passes a test: found, replaced, and taken out.
module _ {ℓ} {A : Type ℓ} (p : A → Bool) where
  unfoldable pub find_first : List A → Option A
  find_first [] = none
  find_first (x ∷ xs) = if p x then some x else find_first xs

  unfoldable pub replace_first : A → List A → List A
  replace_first v [] = []
  replace_first v (x ∷ xs) = if p x then v ∷ xs else x ∷ replace_first v xs

  unfoldable pub drop_first : List A → List A
  drop_first [] = []
  drop_first (x ∷ xs) = if p x then xs else x ∷ drop_first xs

-- A test that passes nowhere still passes nowhere.
module _ {ℓ} {A : Type ℓ} (p : A → Bool) where
  pub any-append :
      (xs : List A) (v : A) → p v ≡ false → any p xs ≡ false → any p (xs ++ v ∷ []) ≡ false
  any-append [] v off h = ground (arith, off)
  any-append (x ∷ xs) v off h = ground (arith, h, any-append xs v off)

  pub any-replace :
      (q : A → Bool) (xs : List A) (v : A)
      → p v ≡ false
      → any p xs ≡ false
      → any p (replace_first q v xs) ≡ false
  unfolding replace_first
  any-replace q [] v off h = h
  any-replace q (x ∷ xs) v off h = ground (arith, off, h, any-replace q xs v off)

  pub any-drop : (q : A → Bool) (xs : List A) → any p xs ≡ false → any p (drop_first q xs) ≡ false
  unfolding drop_first
  any-drop q [] h = h
  any-drop q (x ∷ xs) h = ground (arith, h, any-drop q xs)

  pub any-keep : (q : A → Bool) (xs : List A) → any p xs ≡ false → any p (keep q xs) ≡ false
  any-keep q [] h = h
  any-keep q (x ∷ xs) h = ground (arith, h, any-keep q xs)

  -- What is found by a stronger test fails the weaker.
  pub any-found :
      (q r : A → Bool) (xs : List A) (e : A)
      → ((x : A) → (q x && r x) ≡ true → p x ≡ true)
      → any p xs ≡ false
      → find_first q xs ≡ some e
      → r e ≡ false
  unfolding find_first
  any-found q r [] e weaker h found = ground arith
  any-found q r (x ∷ xs) e weaker h found = ground (arith, weaker x, h, any-found q r xs e weaker)
