-- ===== src/Contacts/Clears.antt =====
-- What clearing the self flag of others does to a search by UID.
use llama_labels.Common.{
  ℕ, ◌≤◌, ◌<◌, String, ◌≡◌, refl, Option, none, some, List, [], ◌∷◌, arith, ◌==◌, ◌⊎◌, inl, inr,
  Bool-cases,
}
use llama_labels.Common.Lists.{find_first}
use llama_labels.Contacts.{Contact}
use llama_labels.Contacts.Operations.SelfFlag.{clear_all, clear_others, cleared, taken}
use llama_labels.Contacts.Finds.{find, IsDistinct}

-- A contact that was found is found again, as it was or with a revision above `seq`.
abbrev pub Moved : ℕ → Option Contact → Option Contact → Type 0
Moved seq none none = Unit
Moved seq none (some c') = ⊥
Moved seq (some c) none = ⊥
Moved seq (some c) (some c') = (c' ≡ c) ⊎ (seq < c'.rev)

Moved-mono : (low seq : ℕ) (o o' : Option Contact) → low ≤ seq → Moved seq o o' → Moved low o o'
Moved-mono low seq none none le h = tt
Moved-mono low seq none (some c') le h = h
Moved-mono low seq (some c) none le h = h
Moved-mono low seq (some c) (some c') le (inl e) = inl e
Moved-mono low seq (some c) (some c') le (inr lt) = inr (omega (arith, lt))

pub Moved-refl : (seq : ℕ) (o : Option Contact) → Moved seq o o
Moved-refl seq none = tt
Moved-refl seq (some c) = inl refl

Moved-none : (seq : ℕ) (o o' : Option Contact) → o ≡ none → Moved seq o o' → o' ≡ none
Moved-none seq none none e h = refl
Moved-none seq none (some c') e h = absurd h
Moved-none seq (some c) o' e h = ground arith

cleared-Moved : (now seq : ℕ) (c : Contact) → Moved seq (some c) (some (cleared now seq c))
cleared-Moved now seq c = elim (Bool-cases c.is_self) [
  | inl e ↦ inr (simp e (omega arith))
  | inr e ↦ inl (simp e refl)
]

taken-le : (seq : ℕ) (c : Contact) → seq ≤ taken seq c
taken-le seq c = ground arith

pub cleared-uid : (now seq : ℕ) (c : Contact) → (cleared now seq c).uid ≡ c.uid
cleared-uid now seq c = ground arith

-- One contact is cleared and the rest moves.
cons-Moved :
    (u : String) (now seq : ℕ) (c : Contact) (cs cs' : List Contact)
    → Moved (taken seq c) (find u cs) (find u cs')
    → Moved seq (find u (c ∷ cs)) (find u (cleared now seq c ∷ cs'))
unfolding find_first
cons-Moved u now seq c cs cs' h = elim (Bool-cases (c.uid == u)) [
  | inl e ↦ simp (cleared-uid now seq c, e) (cleared-Moved now seq c)
  | inr e ↦
      simp (cleared-uid now seq c, e)
        (Moved-mono seq (taken seq c) (find u cs) (find u cs') (taken-le seq c) h)
]

pub clear_all-Moved :
    (u : String) (now seq : ℕ) (cs : List Contact)
    → Moved seq (find u cs) (find u (clear_all now seq cs).0)
unfolding clear_all
clear_all-Moved u now seq [] = unfold find_first in tt
clear_all-Moved u now seq (c ∷ cs) =
    cons-Moved u now seq c cs _ (clear_all-Moved u now (taken seq c) cs)

pub clear_all-le : (now seq : ℕ) (cs : List Contact) → seq ≤ (clear_all now seq cs).1
unfolding clear_all
clear_all-le now seq [] = omega arith
clear_all-le now seq (c ∷ cs) = omega (arith, taken-le seq c, clear_all-le now (taken seq c) cs)

clear_all-IsDistinct :
    (now seq : ℕ) (cs : List Contact) → IsDistinct cs → IsDistinct (clear_all now seq cs).0
unfolding clear_all
clear_all-IsDistinct now seq [] d = tt
clear_all-IsDistinct now seq (c ∷ cs) d = (
  rw (cleared-uid now seq c)
      (Moved-none _ (find c.uid cs) _ d.0 (clear_all-Moved c.uid now (taken seq c) cs)),
  clear_all-IsDistinct now (taken seq c) cs d.1,
)

keep_head-Moved :
    (u : String) (seq : ℕ) (c : Contact) (cs cs' : List Contact)
    → Moved seq (find u cs) (find u cs')
    → Moved seq (find u (c ∷ cs)) (find u (c ∷ cs'))
unfolding find_first
keep_head-Moved u seq c cs cs' h = elim (Bool-cases (c.uid == u)) [
  | inl e ↦ rw e (Moved-refl seq (some c))
  | inr e ↦ rw e h
]

pub clear_others-Moved :
    (u : String) (now : ℕ) (uid : String) (seq : ℕ) (cs : List Contact)
    → Moved seq (find u cs) (find u (clear_others now uid seq cs).0)
unfolding clear_others
clear_others-Moved u now uid seq [] = unfold find_first in tt
clear_others-Moved u now uid seq (c ∷ cs) = elim (Bool-cases (c.uid == uid)) [
  | inl e ↦ rw e (keep_head-Moved u seq c cs _ (clear_all-Moved u now seq cs))
  | inr e ↦ rw e (cons-Moved u now seq c cs _ (clear_others-Moved u now uid (taken seq c) cs))
]

pub clear_others-le :
    (now : ℕ) (uid : String) (seq : ℕ) (cs : List Contact) → seq ≤ (clear_others now uid seq cs).1
unfolding clear_others
clear_others-le now uid seq [] = omega arith
clear_others-le now uid seq (c ∷ cs) =
    ground
      (arith, clear_all-le now seq cs, taken-le seq c, clear_others-le now uid (taken seq c) cs)

pub clear_others-IsDistinct :
    (now : ℕ) (uid : String) (seq : ℕ) (cs : List Contact)
    → IsDistinct cs
    → IsDistinct (clear_others now uid seq cs).0
unfolding clear_others
clear_others-IsDistinct now uid seq [] d = tt
clear_others-IsDistinct now uid seq (c ∷ cs) d = elim (Bool-cases (c.uid == uid)) [
  | inl e ↦ rw e (
    Moved-none _ (find c.uid cs) _ d.0 (clear_all-Moved c.uid now seq cs),
    clear_all-IsDistinct now seq cs d.1,
  )
  | inr e ↦ rw e (
    rw (cleared-uid now seq c)
        (Moved-none _ (find c.uid cs) _ d.0 (clear_others-Moved c.uid now uid (taken seq c) cs)),
    clear_others-IsDistinct now uid (taken seq c) cs d.1,
  )
]

-- The contact that keeps its flag is found as it was.
pub clear_others-find :
    (now : ℕ) (uid : String) (seq : ℕ) (cs : List Contact)
    → find uid (clear_others now uid seq cs).0 ≡ find uid cs
unfolding clear_others find_first
clear_others-find now uid seq [] = refl
clear_others-find now uid seq (c ∷ cs) = elim (Bool-cases (c.uid == uid)) [
  | inl e ↦ rw (e, e) refl
  | inr e ↦ simp (e, cleared-uid now seq c) (clear_others-find now uid (taken seq c) cs)
]
