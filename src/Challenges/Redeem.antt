-- ===== src/Challenges/Redeem.antt =====
-- What a redeemed push approval stands for, and that it is redeemed once.
use mathlib.Core.Path.{subst}
use llama_labels.Common.{
  ℕ, ◌+◌, ◌≤◌, String, ◌≡◌, ◌≢◌, refl, Bool, true, false, not, ◌&&◌, ◌||◌, Option, none, some, List,
  [], ◌∷◌, arith, ◌==◌, ◌∙◌, eq_iff, eq_refl,
}
use llama_labels.Common.Dict.{
  IsMap, lookup, insert, insert-IsMap, lookup-insert, lookup-remove, remove-IsMap,
}
use llama_labels.Challenges.{
  Store, Challenge, Call, creates, resolves, fresh, challenge_ttl, is_approved, run, ok, err,
  challenge_not_found, create, consume_push_approval,
}
use llama_labels.Challenges.Trace.{evolve, evolves, lookup-run}

-- The calls do not draw the ID `k` again.
abbrev pub Avoids : String → List (ℕ × Call) → Type 0
Avoids k [] = Unit
Avoids k ((now, creates u (some id)) ∷ cs) = (id ≢ k) × Avoids k cs
Avoids k (c ∷ cs) = Avoids k cs

-- The call answers yes to the challenge `k`.
abbrev pub approves : String → ℕ × Call → Bool
approves k (now, resolves id device_id approve) = id == k && approve
approves k c = false

abbrev pub any_approves : String → List (ℕ × Call) → Bool
any_approves k [] = false
any_approves k (c ∷ cs) = approves k c || any_approves k cs

-- A challenge of `user` that is approved only if `seen`.
abbrev Traced : String → ℕ → Bool → Option Challenge → Type 0
Traced user expiry seen none = Unit
Traced user expiry seen (some ch) =
    (ch.user_id ≡ user)
    × (ch.expires_at ≡ expiry)
    × ((not (is_approved ch.push_status) || seen) ≡ true)

Traced-evolve :
    (k user : String) (expiry : ℕ) (seen : Bool) (c : ℕ × Call) (o : Option Challenge)
    → Avoids k (c ∷ [])
    → Traced user expiry seen o
    → Traced user expiry (seen || approves k c) (evolve k c o)
Traced-evolve k user expiry seen (now, creates u (some id)) o a h = ground (arith, eq_iff id k)
Traced-evolve k user expiry seen (now, creates u none) none a h = tt
Traced-evolve k user expiry seen (now, c) none a h = ground arith
Traced-evolve k user expiry seen (now, creates u none) (some ch) a h = ground arith
Traced-evolve k user expiry seen (now, c) (some ch) a h = ground arith

or_assoc : (a b c : Bool) → ((a || b) || c) ≡ (a || (b || c))
or_assoc true b c = refl
or_assoc false b c = refl

pub Avoids-head :
    (k : String) (c : ℕ × Call) (cs : List (ℕ × Call)) → Avoids k (c ∷ cs) → Avoids k (c ∷ [])
Avoids-head k (now, creates u (some id)) cs a = (a.0, tt)
Avoids-head k (now, creates u none) cs a = tt
Avoids-head k (now, c) cs a = tt

pub Avoids-tail :
    (k : String) (c : ℕ × Call) (cs : List (ℕ × Call)) → Avoids k (c ∷ cs) → Avoids k cs
Avoids-tail k (now, creates u (some id)) cs a = a.1
Avoids-tail k (now, creates u none) cs a = a
Avoids-tail k (now, c) cs a = a

Traced-evolves :
    (k user : String) (expiry : ℕ) (seen : Bool) (cs : List (ℕ × Call)) (o : Option Challenge)
    → Avoids k cs
    → Traced user expiry seen o
    → Traced user expiry (seen || any_approves k cs) (evolves k cs o)
Traced-evolves k user expiry true [] o a h = h
Traced-evolves k user expiry false [] o a h = h
Traced-evolves k user expiry seen (c ∷ cs) o a h =
    subst (λ b. Traced user expiry b (evolves k cs (evolve k c o)))
      (or_assoc seen (approves k c) (any_approves k cs))
      (Traced-evolves k user expiry (seen || approves k c) cs (evolve k c o) (Avoids-tail k c cs a)
        (Traced-evolve k user expiry seen c o (Avoids-head k c cs a) h))

redeemed-Traced :
    (s : Store) (k user user' : String) (expiry t : ℕ) (seen : Bool)
    → Traced user expiry seen (lookup k s.m)
    → (consume_push_approval s k t).0 ≡ ok user'
    → (user' ≡ user) × (seen ≡ true) × (t ≤ expiry)
unfolding consume_push_approval
redeemed-Traced s k user user' expiry t seen h e = ground arith

-- A challenge that was created for `user` under the ID `k`, in a store in which no ID stands twice, and is
-- redeemed, after any calls that do not draw `k` again, names that user, has been approved by a resolving
-- call, and has not passed its time to live.
pub redeem-provenance :
    (s : Store) (k user user' : String) (born t : ℕ) (cs : List (ℕ × Call))
    → IsMap s.m
    → Avoids k cs
    → (consume_push_approval (run (create s user (some k) born).1 cs) k t).0 ≡ ok user'
    → (user' ≡ user) × (any_approves k cs ≡ true) × (t ≤ born + challenge_ttl)
unfolding create
redeem-provenance s k user user' born t cs w a e =
    let c = fresh k user born in
    let s0 : Store = record { m = insert k c s.m } in
    redeemed-Traced (run s0 cs) k user user' (born + challenge_ttl) t (any_approves k cs)
      (rw (lookup-run s0 k cs (insert-IsMap k c s.m w), lookup-insert k k c s.m, eq_refl k)
        (Traced-evolves k user (born + challenge_ttl) false cs (some c) a (refl, refl, refl)))
      e

redeemed-IsMap :
    (s : Store) (k : String) (t : ℕ) → IsMap s.m → IsMap (consume_push_approval s k t).1.m
unfolding consume_push_approval
redeemed-IsMap s k t w = ground (arith, remove-IsMap k s.m w)

redeemed-absent :
    (s : Store) (k user : String) (t : ℕ)
    → (consume_push_approval s k t).0 ≡ ok user
    → lookup k (consume_push_approval s k t).1.m ≡ none
unfolding consume_push_approval
redeemed-absent s k user t e = ground (arith, lookup-remove k k s.m, eq_refl k)

absent-not-found :
    (s : Store) (k : String) (t : ℕ)
    → lookup k s.m ≡ none
    → (consume_push_approval s k t).0 ≡ err challenge_not_found
unfolding consume_push_approval
absent-not-found s k t e = ground (arith, e)

evolve-none : (k : String) (c : ℕ × Call) → Avoids k (c ∷ []) → evolve k c none ≡ none
evolve-none k (now, creates u none) a = refl
evolve-none k (now, creates u (some id)) a = ground (arith, eq_iff id k)
evolve-none k (now, c) a = ground arith

evolves-none : (k : String) (cs : List (ℕ × Call)) → Avoids k cs → evolves k cs none ≡ none
evolves-none k [] a = refl
evolves-none k (c ∷ cs) a =
    rw (evolve-none k c (Avoids-head k c cs a)) (evolves-none k cs (Avoids-tail k c cs a))

-- An approval is redeemed once: after a redemption, and any calls that do not draw the ID again, the
-- challenge is not found.
pub redeem-once :
    (s : Store) (k user : String) (t t' : ℕ) (cs : List (ℕ × Call))
    → IsMap s.m
    → (consume_push_approval s k t).0 ≡ ok user
    → Avoids k cs
    → (consume_push_approval (run (consume_push_approval s k t).1 cs) k t').0
      ≡ err challenge_not_found
redeem-once s k user t t' cs w e a =
    absent-not-found (run (consume_push_approval s k t).1 cs) k t' (
      lookup-run (consume_push_approval s k t).1 k cs (redeemed-IsMap s k t w)
      ∙ (rw (redeemed-absent s k user t e) (evolves-none k cs a)))
