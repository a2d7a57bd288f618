-- ===== src/Tests/Challenges.antt =====
-- Runs of the challenge store.
use llama_labels.Common.{
  ℕ, ◌+◌, ◌≤◌, ◌≡◌, ◌≢◌, refl, true, false, some, List, [], ◌∷◌, arith, String,
}
use llama_labels.Common.Dict.{lookup, insert, remove}
use llama_labels.Challenges.{
  Store, Call, attempts, resolves, asks, new_store, ok, err, approved, challenge_not_found, create,
  consume_push_approval, consume_totp_step, resolve_push, run, step, max_totp_attempts,
  challenge_ttl, fresh, verdict,
}
use llama_labels.Challenges.Trace.{evolves, lookup-run}
use llama_labels.Challenges.Redeem.{any_approves, redeem-provenance, redeem-once}
use llama_labels.Challenges.Attempts.{
  tolerated, Stands, attempts-bounded, totp-step-once, first-decision-Stands,
}

abbrev approving : List (ℕ × Call)
approving = (1, asks "c1") ∷ (2, resolves "c1" "phone" true) ∷ (3, asks "c1") ∷ []

abbrev created : Store
created = record { m = ("c1", fresh "c1" "ann" 0) ∷ [] }

lookup-run_example :
    lookup "c1" (run created approving).m ≡ evolves "c1" approving (lookup "c1" created.m)
lookup-run_example = lookup-run created "c1" approving (unfold lookup in (refl, tt))

redeem-provenance_example :
    (◌≡◌ {A = String} "ann" "ann") × (any_approves "c1" approving ≡ true) × (9 ≤ 0 + challenge_ttl)
redeem-provenance_example =
    redeem-provenance new_store "c1" "ann" "ann" 0 9 approving tt tt
      (unfold create run step consume_push_approval lookup insert remove in refl)

abbrev approved_store : Store
approved_store = record { m = ("c1", record (fresh "c1" "ann" 0) { push_status = approved }) ∷ [] }

redeem-once_example :
    (consume_push_approval (run (consume_push_approval approved_store "c1" 5).1 approving) "c1" 9).0
    ≡ err challenge_not_found
redeem-once_example =
    redeem-once approved_store "c1" "ann" 5 9 approving (unfold lookup in (refl, tt))
      (unfold consume_push_approval lookup in refl) tt

abbrev six_tries : List (ℕ × Call)
six_tries =
    (1, attempts "c1")
    ∷ (2, attempts "c1")
    ∷ (3, attempts "c1")
    ∷ (4, attempts "c1")
    ∷ (5, attempts "c1")
    ∷ (6, attempts "c1")
    ∷ []

attempts-bounded_example :
    tolerated (create new_store "ann" (some "c1") 0).1 "c1" six_tries ≤ max_totp_attempts
attempts-bounded_example = attempts-bounded new_store "c1" "ann" 0 six_tries tt tt

totp-step-once_example :
    (consume_totp_step (run (consume_totp_step created "c1" 77 5).1 approving) "c1" 77 9).0 ≢ ok tt
totp-step-once_example =
    totp-step-once created "c1" 77 77 5 9 approving (unfold lookup in (refl, tt)) (omega arith)
      (unfold consume_totp_step lookup in refl) tt

first-decision-Stands_example :
    Stands
      (verdict false)
      (resolve_push
        (run (resolve_push created "c1" "phone" false 5).1 approving)
        "c1"
        "tablet"
        true
        9).0
first-decision-Stands_example =
    first-decision-Stands created "c1" "phone" "tablet" false true 5 9 approving
      (unfold lookup in (refl, tt)) (unfold resolve_push lookup in refl) tt
