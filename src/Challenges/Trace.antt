-- ===== src/Challenges/Trace.antt =====
-- The store against its abstract view: every challenge is a state machine of its own.
use llama_labels.Common.{
  ℕ, ◌+◌, String, ◌≡◌, refl, Bool, Option, none, some, List, [], ◌∷◌, arith, ltb, nat_eq,
  if◌then◌else◌, ◌==◌, eq_iff, ◌∙◌, ap, Option-cases, inl, inr,
}
use llama_labels.Common.Dict.{
  IsMap, lookup, lookup-insert, lookup-remove, lookup-retain, insert-IsMap, remove-IsMap,
  retain-IsMap,
}
use llama_labels.Challenges.{
  Store, Challenge, Call, creates, gets, attempts, deletes, asks, redeems, consumes_step,
  deletes_user, resolves, fresh, max_totp_attempts, is_resolved, is_approved, verdict, step, run,
}

-- What a live challenge becomes.
abbrev attempted : Challenge → Option Challenge
attempted ch =
    if ltb max_totp_attempts (ch.totp_attempts + 1)
    then none
    else some (record ch { totp_attempts = ch.totp_attempts + 1 })

abbrev stepped : ℕ → Challenge → Option Challenge
stepped n ch =
    if nat_eq ch.used_totp_step 0 then some (record ch { used_totp_step = n }) else some ch

abbrev resolved : String → Bool → Challenge → Option Challenge
resolved device_id approve ch =
    if is_resolved ch.push_status
    then some ch
    else some (record ch { push_status = verdict approve; responded_by = device_id })

abbrev redeemed : Challenge → Option Challenge
redeemed ch = if is_approved ch.push_status then none else some ch

abbrev when_live : ℕ → (Challenge → Option Challenge) → Option Challenge → Option Challenge
when_live now f none = none
when_live now f (some ch) = if ltb ch.expires_at now then none else f ch

-- What a call makes of the challenge with the ID `k`.
abbrev pub evolve : String → ℕ × Call → Option Challenge → Option Challenge
evolve k (now, creates user_id none) o = o
evolve k (now, creates user_id (some id)) o = if id == k then some (fresh id user_id now) else o
evolve k (now, gets id) o = if id == k then when_live now some o else o
evolve k (now, attempts id) o = if id == k then when_live now attempted o else o
evolve k (now, deletes id) o = if id == k then none else o
evolve k (now, asks id) o = if id == k then when_live now some o else o
evolve k (now, redeems id) o = if id == k then when_live now redeemed o else o
evolve k (now, consumes_step id n) o = if id == k then when_live now (stepped n) o else o
evolve k (now, deletes_user user_id) none = none
evolve k (now, deletes_user user_id) (some ch) = if ch.user_id == user_id then none else some ch
evolve k (now, resolves id device_id approve) o =
    if id == k then when_live now (resolved device_id approve) o else o

abbrev pub evolves : String → List (ℕ × Call) → Option Challenge → Option Challenge
evolves k [] o = o
evolves k (c ∷ cs) o = evolves k cs (evolve k c o)

pub step-IsMap : (s : Store) (c : ℕ × Call) → IsMap s.m → IsMap (step s c).m
unfolding step
step-IsMap s (now, creates u none) w = w
step-IsMap s (now, creates u (some id)) w = insert-IsMap id _ s.m w
step-IsMap s (now, gets id) w = ground (arith, remove-IsMap id s.m w)
step-IsMap s (now, attempts id) w = elim (Option-cases (lookup id s.m)) [
  | inl e ↦ ground (arith, e, remove-IsMap id s.m w)
  | inr (ch, e) ↦ ground (
    arith,
    e,
    remove-IsMap id s.m w,
    insert-IsMap id (record ch { totp_attempts = ch.totp_attempts + 1 }) s.m w,
  )
]
step-IsMap s (now, deletes id) w = remove-IsMap id s.m w
step-IsMap s (now, asks id) w = ground (arith, remove-IsMap id s.m w)
step-IsMap s (now, redeems id) w = ground (arith, remove-IsMap id s.m w)
step-IsMap s (now, consumes_step id n) w = elim (Option-cases (lookup id s.m)) [
  | inl e ↦ ground (arith, e, remove-IsMap id s.m w)
  | inr (ch, e) ↦
      ground
        (arith, e, remove-IsMap id s.m w, insert-IsMap id (record ch { used_totp_step = n }) s.m w)
]
step-IsMap s (now, deletes_user u) w = retain-IsMap _ s.m w
step-IsMap s (now, resolves id dev approve) w = elim (Option-cases (lookup id s.m)) [
  | inl e ↦ ground (arith, e, remove-IsMap id s.m w)
  | inr (ch, e) ↦ ground (
    arith,
    e,
    remove-IsMap id s.m w,
    insert-IsMap id (record ch { push_status = verdict approve; responded_by = dev }) s.m w,
  )
]

pub lookup-step :
    (s : Store) (k : String) (c : ℕ × Call)
    → IsMap s.m
    → lookup k (step s c).m ≡ evolve k c (lookup k s.m)
unfolding step
lookup-step s k (now, creates u none) w = refl
lookup-step s k (now, creates u (some id)) w = rw lookup-insert
lookup-step s k (now, gets id) w = ground (arith, lookup-remove id k s.m, eq_iff id k)
lookup-step s k (now, attempts id) w = elim (Option-cases (lookup id s.m)) [
  | inl e ↦ ground (arith, e, lookup-remove id k s.m, eq_iff id k)
  | inr (ch, e) ↦ ground (
    arith,
    e,
    eq_iff id k,
    lookup-remove id k s.m,
    lookup-insert id k (record ch { totp_attempts = ch.totp_attempts + 1 }) s.m,
  )
]
lookup-step s k (now, deletes id) w = rw lookup-remove
lookup-step s k (now, asks id) w = ground (arith, lookup-remove id k s.m, eq_iff id k)
lookup-step s k (now, redeems id) w = ground (arith, lookup-remove id k s.m, eq_iff id k)
lookup-step s k (now, consumes_step id n) w = elim (Option-cases (lookup id s.m)) [
  | inl e ↦ ground (arith, e, lookup-remove id k s.m, eq_iff id k)
  | inr (ch, e) ↦ ground (
    arith,
    e,
    eq_iff id k,
    lookup-remove id k s.m,
    lookup-insert id k (record ch { used_totp_step = n }) s.m,
  )
]
lookup-step s k (now, deletes_user u) w = rw (lookup-retain _ k s.m w) (ground arith)
lookup-step s k (now, resolves id dev approve) w = elim (Option-cases (lookup id s.m)) [
  | inl e ↦ ground (arith, e, lookup-remove id k s.m, eq_iff id k)
  | inr (ch, e) ↦ ground (
    arith,
    e,
    eq_iff id k,
    lookup-remove id k s.m,
    lookup-insert id k (record ch { push_status = verdict approve; responded_by = dev }) s.m,
  )
]

pub run-IsMap : (s : Store) (cs : List (ℕ × Call)) → IsMap s.m → IsMap (run s cs).m
unfolding run
run-IsMap s [] w = w
run-IsMap s (c ∷ cs) w = run-IsMap (step s c) cs (step-IsMap s c w)

-- Whatever calls are made, the challenge under an ID goes its own way: it is what `evolves` makes of
-- it, and no call about another ID, and no state but the challenge itself, has a part in that.
pub lookup-run :
    (s : Store) (k : String) (cs : List (ℕ × Call))
    → IsMap s.m
    → lookup k (run s cs).m ≡ evolves k cs (lookup k s.m)
unfolding run
lookup-run s k [] w = refl
lookup-run s k (c ∷ cs) w =
    lookup-run (step s c) k cs (step-IsMap s c w) ∙ ap (evolves k cs) (lookup-step s k c w)
