-- ===== src/Challenges/Attempts.antt =====
-- Second factors on one challenge: how many tries it tolerates, that a code counts once, and that the
-- first push decision stands.
use llama_labels.Common.{
  ℕ, ◌+◌, ◌-◌, ◌≤◌, String, ◌≡◌, ◌≢◌, Bool, true, false, Option, none, some, List, [], ◌∷◌, arith,
  if◌then◌else◌, ◌==◌, eq_iff, eq_refl, ap, Option-cases, inl, inr, ◌⊎◌,
}
use llama_labels.Common.Dict.{IsMap, lookup, insert, insert-IsMap, lookup-insert}
use llama_labels.Challenges.{
  Store, Challenge, Call, creates, attempts, consumes_step, resolves, PushStatus, unset,
  challenge_not_found, challenge_already_resolved, fresh, max_totp_attempts, verdict, step, run, ok,
  err, Error, create, record_totp_attempt, consume_totp_step, resolve_push,
}
use llama_labels.Challenges.Trace.{evolve, evolves, lookup-run, step-IsMap, lookup-step}
use llama_labels.Challenges.Redeem.{Avoids, Avoids-head, Avoids-tail}

-- Whether the call is an attempt on `k` that the store lets pass.
abbrev pub tolerates : Store → String → ℕ × Call → ℕ
tolerates s k (now, attempts id) =
    if id == k then (elim (record_totp_attempt s k now).0 [ ok _ ↦ 1 | err _ ↦ 0 ]) else 0
tolerates s k c = 0

-- How many attempts on `k` the store lets pass in a run.
abbrev pub tolerated : Store → String → List (ℕ × Call) → ℕ
tolerated s k [] = 0
tolerated s k (c ∷ cs) = tolerates s k c + tolerated (step s c) k cs

abbrev budget : Option Challenge → ℕ
budget none = 0
budget (some ch) = max_totp_attempts - ch.totp_attempts

tolerates-budget :
    (s : Store) (k : String) (c : ℕ × Call)
    → Avoids k (c ∷ [])
    → tolerates s k c + budget (evolve k c (lookup k s.m)) ≤ budget (lookup k s.m)
unfolding record_totp_attempt
tolerates-budget s k (now, creates u none) a = omega arith
tolerates-budget s k (now, creates u (some id)) a = ground (arith, eq_iff id k)
tolerates-budget s k (now, c) a = ground arith

tolerated-budget :
    (s : Store) (k : String) (cs : List (ℕ × Call))
    → IsMap s.m
    → Avoids k cs
    → tolerated s k cs ≤ budget (lookup k s.m)
tolerated-budget s k [] w a = omega arith
tolerated-budget s k (c ∷ cs) w a = omega (
  arith,
  tolerates-budget s k c (Avoids-head k c cs a),
  tolerated-budget (step s c) k cs (step-IsMap s c w) (Avoids-tail k c cs a),
  ap budget (lookup-step s k c w),
)

-- However the store is used, a challenge lets at most `max_totp_attempts` attempts pass.
pub attempts-bounded :
    (s : Store) (k user : String) (born : ℕ) (cs : List (ℕ × Call))
    → IsMap s.m
    → Avoids k cs
    → tolerated (create s user (some k) born).1 k cs ≤ max_totp_attempts
unfolding create
attempts-bounded s k user born cs w a =
    let c = fresh k user born in
    let s0 : Store = record { m = insert k c s.m } in
    omega (
      arith,
      tolerated-budget s0 k cs (insert-IsMap k c s.m w) a,
      ap budget (lookup-insert k k c s.m),
      ap (λ b. budget (if b then some c else lookup k s.m)) (eq_refl k),
    )

-- The challenge is gone, or has used up its step.
abbrev IsSpent : Option Challenge → Type 0
IsSpent none = Unit
IsSpent (some ch) = ch.used_totp_step ≢ 0

IsSpent-evolve :
    (k : String) (c : ℕ × Call) (o : Option Challenge)
    → Avoids k (c ∷ [])
    → IsSpent o
    → IsSpent (evolve k c o)
IsSpent-evolve k (now, creates u none) o a h = h
IsSpent-evolve k (now, creates u (some id)) o a h = ground (arith, eq_iff id k)
IsSpent-evolve k (now, c) none a h = ground arith
IsSpent-evolve k (now, c) (some ch) a h = ground arith

IsSpent-evolves :
    (k : String) (cs : List (ℕ × Call)) (o : Option Challenge)
    → Avoids k cs
    → IsSpent o
    → IsSpent (evolves k cs o)
IsSpent-evolves k [] o a h = h
IsSpent-evolves k (c ∷ cs) o a h =
    IsSpent-evolves k cs (evolve k c o) (Avoids-tail k c cs a)
      (IsSpent-evolve k c o (Avoids-head k c cs a) h)

IsSpent-after :
    (s : Store) (k : String) (n t : ℕ)
    → n ≢ 0
    → (consume_totp_step s k n t).0 ≡ ok tt
    → IsSpent (lookup k (consume_totp_step s k n t).1.m)
unfolding consume_totp_step
IsSpent-after s k n t nz e = elim (Option-cases (lookup k s.m)) [
  | inl p ↦ ground (arith, p)
  | inr (ch, p) ↦
      ground (arith, p, eq_refl k, lookup-insert k k (record ch { used_totp_step = n }) s.m)
]

spent-refuses :
    (s : Store) (k : String) (n t : ℕ)
    → IsSpent (lookup k s.m)
    → (consume_totp_step s k n t).0 ≢ ok tt
unfolding consume_totp_step
spent-refuses s k n t h = ground arith

-- Once a time step, which is not 0, is consumed on a challenge, no later consumption on it succeeds,
-- with whatever step, after any calls that do not draw its ID again.
pub totp-step-once :
    (s : Store) (k : String) (n n' t t' : ℕ) (cs : List (ℕ × Call))
    → IsMap s.m
    → n ≢ 0
    → (consume_totp_step s k n t).0 ≡ ok tt
    → Avoids k cs
    → (consume_totp_step (run (consume_totp_step s k n t).1 cs) k n' t').0 ≢ ok tt
totp-step-once s k n n' t t' cs w nz e a =
    let s1 = (consume_totp_step s k n t).1 in
    spent-refuses (run s1 cs) k n' t' (
      rw (lookup-run s1 k cs (unfold step in step-IsMap s (t, consumes_step k n) w))
        (IsSpent-evolves k cs (lookup k s1.m) a (IsSpent-after s k n t nz e)))

-- The challenge is gone, or its status is `st`.
abbrev IsDecided : PushStatus → Option Challenge → Type 0
IsDecided st none = Unit
IsDecided st (some ch) = ch.push_status ≡ st

IsDecided-evolve :
    (k : String) (approve : Bool) (c : ℕ × Call) (o : Option Challenge)
    → Avoids k (c ∷ [])
    → IsDecided (verdict approve) o
    → IsDecided (verdict approve) (evolve k c o)
IsDecided-evolve k approve (now, creates u none) o a h = h
IsDecided-evolve k approve (now, creates u (some id)) o a h = ground (arith, eq_iff id k)
IsDecided-evolve k approve (now, c) none a h = ground arith
IsDecided-evolve k approve (now, c) (some ch) a h = ground arith

IsDecided-evolves :
    (k : String) (approve : Bool) (cs : List (ℕ × Call)) (o : Option Challenge)
    → Avoids k cs
    → IsDecided (verdict approve) o
    → IsDecided (verdict approve) (evolves k cs o)
IsDecided-evolves k approve [] o a h = h
IsDecided-evolves k approve (c ∷ cs) o a h =
    IsDecided-evolves k approve cs (evolve k c o) (Avoids-tail k c cs a)
      (IsDecided-evolve k approve c o (Avoids-head k c cs a) h)

IsDecided-after :
    (s : Store) (k dev : String) (approve : Bool) (t : ℕ)
    → (resolve_push s k dev approve t).0.1 ≡ none
    → IsDecided (verdict approve) (lookup k (resolve_push s k dev approve t).1.m)
unfolding resolve_push
IsDecided-after s k dev approve t e = elim (Option-cases (lookup k s.m)) [
  | inl p ↦ ground (arith, p)
  | inr (ch, p) ↦ ground (
    arith,
    p,
    eq_refl k,
    lookup-insert k k (record ch { push_status = verdict approve; responded_by = dev }) s.m,
  )
]

abbrev pub Stands : PushStatus → PushStatus × Option Error → Type 0
Stands st r = (r ≡ (unset, some challenge_not_found)) ⊎ (r ≡ (st, some challenge_already_resolved))

decided-Stands :
    (s : Store) (k dev : String) (approve approve' : Bool) (t : ℕ)
    → IsDecided (verdict approve) (lookup k s.m)
    → Stands (verdict approve) (resolve_push s k dev approve' t).0
unfolding resolve_push
decided-Stands s k dev true approve' t h = grind arith
decided-Stands s k dev false approve' t h = grind arith

-- The first decision stands: after a call that resolved the challenge `k`, and any calls that do not
-- draw its ID again, resolving it once more finds no challenge or returns the first decision together
-- with the error that says so.
pub first-decision-Stands :
    (s : Store) (k dev dev' : String) (approve approve' : Bool) (t t' : ℕ) (cs : List (ℕ × Call))
    → IsMap s.m
    → (resolve_push s k dev approve t).0.1 ≡ none
    → Avoids k cs
    → Stands
        (verdict approve)
        (resolve_push (run (resolve_push s k dev approve t).1 cs) k dev' approve' t').0
first-decision-Stands s k dev dev' approve approve' t t' cs w e a =
    let s1 = (resolve_push s k dev approve t).1 in
    decided-Stands (run s1 cs) k dev' approve approve' t' (
      rw (lookup-run s1 k cs (unfold step in step-IsMap s (t, resolves k dev approve) w))
        (IsDecided-evolves k approve cs (lookup k s1.m) a (IsDecided-after s k dev approve t e)))
