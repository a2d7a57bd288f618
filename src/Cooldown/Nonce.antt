-- ===== src/Cooldown/Nonce.antt =====
-- backend/internal/api/native_pairing_nonce.go: a pairing token's nonce is redeemed once.
use llama_labels.Common.{
  ℕ, ◌+◌, ◌<◌, String, ◌≡◌, Bool, true, false, not, Option, none, some, List, [], ◌∷◌, arith, ltb,
  leb, if◌then◌else◌, eq_iff, eq_refl, All, length,
}
use llama_labels.Common.Dict.{
  Dict, IsMap, lookup, insert, retain, lookup-insert, lookup-retain, insert-IsMap, retain-IsMap,
}

abbrev pub native_pairing_nonce_sweep_threshold : ℕ
native_pairing_nonce_sweep_threshold = 10000

-- Each nonce with the time at which it expires.
pub record ConsumedNonces : Type 0 where
  pub seen : Dict ℕ

-- Past the threshold the expired nonces are deleted.
unfoldable pub swept : ConsumedNonces → ℕ → Dict ℕ
swept c now =
    if leb native_pairing_nonce_sweep_threshold (length c.seen)
    then retain (λ exp. not (ltb exp now)) c.seen
    else c.seen

abbrev pub is_live : Option ℕ → ℕ → Bool
is_live none now = false
is_live (some exp) now = ltb now exp

unfoldable pub consume : ConsumedNonces → String → ℕ → ℕ → Bool × ConsumedNonces
consume c nonce ttl now =
    if is_live (lookup nonce (swept c now)) now
    then (false, record { seen = swept c now })
    else (true, record { seen = insert nonce (now + ttl) (swept c now) })

-- One redemption: the nonce, its ttl and the time.
pub record Attempt : Type 0 where
  pub nonce : String
  pub ttl : ℕ
  pub now : ℕ

abbrev pub run : ConsumedNonces → List Attempt → ConsumedNonces
run c [] = c
run c (a ∷ rest) = run (consume c a.nonce a.ttl a.now).1 rest

swept-IsMap : (c : ConsumedNonces) (now : ℕ) → IsMap c.seen → IsMap (swept c now)
unfolding swept
swept-IsMap c now w = ground (arith, retain-IsMap (λ (exp : ℕ). not (ltb exp now)) c.seen)

pub consume-IsMap :
    (c : ConsumedNonces) (nonce : String) (ttl now : ℕ)
    → IsMap c.seen
    → IsMap (consume c nonce ttl now).1.seen
unfolding consume
consume-IsMap c nonce ttl now w =
    ground (arith, swept-IsMap c now w, insert-IsMap nonce (now + ttl) (swept c now))

lookup-swept :
    (c : ConsumedNonces) (nonce : String) (exp now : ℕ)
    → IsMap c.seen
    → lookup nonce c.seen ≡ some exp
    → now < exp
    → lookup nonce (swept c now) ≡ some exp
unfolding swept
lookup-swept c nonce exp now w e h =
    ground (arith, lookup-retain (λ (x : ℕ). not (ltb x now)) nonce c.seen)

consume-keeps :
    (c : ConsumedNonces) (nonce other : String) (ttl now exp : ℕ)
    → IsMap c.seen
    → lookup nonce c.seen ≡ some exp
    → now < exp
    → lookup nonce (consume c other ttl now).1.seen ≡ some exp
unfolding consume
consume-keeps c nonce other ttl now exp w e h = ground (
  arith,
  lookup-swept c nonce exp now w e h,
  eq_iff other nonce,
  lookup-insert other nonce (now + ttl) (swept c now),
)

run-keeps :
    (c : ConsumedNonces) (nonce : String) (exp : ℕ) (attempts : List Attempt)
    → IsMap c.seen
    → lookup nonce c.seen ≡ some exp
    → All (λ a. a.now < exp) attempts
    → IsMap (run c attempts).seen × (lookup nonce (run c attempts).seen ≡ some exp)
run-keeps c nonce exp [] w e h = (w, e)
run-keeps c nonce exp (a ∷ rest) w e h =
    run-keeps (consume c a.nonce a.ttl a.now).1 nonce exp rest
      (consume-IsMap c a.nonce a.ttl a.now w)
      (consume-keeps c nonce a.nonce a.ttl a.now exp w e h.0) h.1

consumed-recorded :
    (c : ConsumedNonces) (nonce : String) (ttl now : ℕ)
    → (consume c nonce ttl now).0 ≡ true
    → lookup nonce (consume c nonce ttl now).1.seen ≡ some (now + ttl)
unfolding consume
consumed-recorded c nonce ttl now h =
    ground (arith, eq_refl nonce, lookup-insert nonce nonce (now + ttl) (swept c now))

live-refused :
    (c : ConsumedNonces) (nonce : String) (ttl now exp : ℕ)
    → IsMap c.seen
    → lookup nonce c.seen ≡ some exp
    → now < exp
    → (consume c nonce ttl now).0 ≡ false
unfolding consume
live-refused c nonce ttl now exp w e h = ground (arith, lookup-swept c nonce exp now w e h)

-- A nonce that was redeemed at time `first` is refused until its ttl has run out, whatever nonces are
-- redeemed, and whatever sweeps that starts, in between.
pub nonce-single_use :
    (c : ConsumedNonces) (nonce : String) (ttl first : ℕ) (attempts : List Attempt) (t ttl' : ℕ)
    → IsMap c.seen
    → (consume c nonce ttl first).0 ≡ true
    → All (λ a. a.now < first + ttl) attempts
    → t < first + ttl
    → (consume (run (consume c nonce ttl first).1 attempts) nonce ttl' t).0 ≡ false
nonce-single_use c nonce ttl first attempts t ttl' w ok h late =
    let (w', e) =
      run-keeps (consume c nonce ttl first).1 nonce (first + ttl) attempts
        (consume-IsMap c nonce ttl first w) (consumed-recorded c nonce ttl first ok) h in
    live-refused _ nonce ttl' t (first + ttl) w' e late
