-- ===== src/Tests/Cooldown.antt =====
-- Runs of the cooldowns and of the nonce guard.
use llama_labels.Common.{◌≡◌, refl, false, List, [], ◌∷◌, arith}
use llama_labels.Common.Dict.{lookup}
use llama_labels.Cooldown.Nonce
use llama_labels.Cooldown.Nonce.{ConsumedNonces, Attempt, consume, nonce-single_use}

abbrev none_seen : ConsumedNonces
none_seen = record { seen = [] }

abbrev others : List Attempt
others =
    record { nonce = "n2"; ttl = 90; now = 20 } ∷ record { nonce = "n1"; ttl = 90; now = 30 } ∷ []

nonce-single_use_example :
    (consume (Nonce.run (consume none_seen "n1" 90 10).1 others) "n1" 90 99).0 ≡ false
nonce-single_use_example =
    nonce-single_use none_seen "n1" 90 10 others 99 90 tt
      (unfold consume Nonce.swept lookup in refl) (omega arith) (omega arith)
