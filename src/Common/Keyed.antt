-- ===== src/Common/Keyed.antt =====
-- Lists searched by a text key, as the stores search their records by ID.
use Prim.Native.String.{String}
use llama_labels.Common.Tests.{if◌then◌else◌, Bool-cases}
use llama_labels.Common.Lists.{find_first, replace_first, drop_first, keep}
use mathlib.Core.Bool.{Bool, true, false}
use mathlib.Core.List.{List, [], ◌∷◌, ◌++◌}
use mathlib.Core.Logic.{inl, inr}
use mathlib.Core.Option.{Option, none, some}
use mathlib.Core.Path.{◌≡◌, refl}
use native.Mathlib.Omega.{arith}
use text.Mathlib.Text.{◌==◌}
use text.Mathlib.TextEquality.{eq_iff}

abbrev pub or_else {ℓ} : {A : Type ℓ} → Option A → Option A → Option A
or_else none other = other
or_else (some x) other = some x

module _ {A : Type 0} (key : A → String) where
  abbrev pub has_key : String → A → Bool
  has_key k x = key x == k

  abbrev pub find : String → List A → Option A
  find k xs = find_first (has_key k) xs

  pub find-append :
      (k : String) (xs : List A) (v : A)
      → find k (xs ++ v ∷ []) ≡ or_else (find k xs) (if key v == k then some v else none)
  unfolding find_first
  find-append k [] v = refl
  find-append k (x ∷ xs) v = ground (arith, find-append k xs v)

  pub find-append_new :
      (k : String) (xs : List A) (v : A)
      → find (key v) xs ≡ none
      → find k (xs ++ v ∷ []) ≡ (if key v == k then some v else find k xs)
  find-append_new k xs v new = rw (find-append k xs v) (elim (Bool-cases (key v == k)) [
    | inl e ↦
        let same : key v ≡ k = (eq_iff (key v) k).0 e in
        let none : find k xs ≡ none = rw same at new in simp (e, none) refl
    | inr e ↦ simp e (or_else-none (find k xs))
  ])
    where
      or_else-none : (o : Option A) → or_else o none ≡ o
      or_else-none none = refl
      or_else-none (some x) = refl

  pub find-replace :
      (k w : String) (v e : A) (xs : List A)
      → find w xs ≡ some e
      → key v ≡ w
      → find k (replace_first (has_key w) v xs) ≡ (if w == k then some v else find k xs)
  unfolding find_first replace_first
  find-replace k w v e [] found same = ground arith
  find-replace k w v e (x ∷ xs) found same = ground (
    arith,
    eq_iff (key x) w,
    eq_iff (key x) k,
    eq_iff (key v) k,
    eq_iff w k,
    find-replace k w v e xs,
  )

  pub found-key : (k : String) (xs : List A) (e : A) → find k xs ≡ some e → key e ≡ k
  unfolding find_first
  found-key k [] e h = ground arith
  found-key k (x ∷ xs) e h = ground (arith, eq_iff (key x) k, found-key k xs e)

  -- Taking out the first with another key.
  pub find-drop :
      (k w : String) (xs : List A)
      → (w == k) ≡ false
      → find k (drop_first (has_key w) xs) ≡ find k xs
  unfolding find_first drop_first
  find-drop k w [] ne = refl
  find-drop k w (x ∷ xs) ne =
      ground (arith, eq_iff (key x) w, eq_iff (key x) k, eq_iff w k, find-drop k w xs ne)

  -- A choice that keeps the element that is found.
  pub find-keep_found :
      (k : String) (p : A → Bool) (xs : List A) (e : A)
      → find k xs ≡ some e
      → p e ≡ true
      → find k (keep p xs) ≡ some e
  unfolding find_first
  find-keep_found k p [] e found h = ground arith
  find-keep_found k p (x ∷ xs) e found h = ground (arith, h, find-keep_found k p xs e)
