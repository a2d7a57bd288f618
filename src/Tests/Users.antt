-- ===== src/Tests/Users.antt =====
-- Runs of the account store.
use llama_labels.Common.{◌≡◌, ◌≢◌, refl, true, false, some, [], ◌∷◌, arith, String, Bool, ◌==◌}
use llama_labels.Disk.{holds, Io}
use llama_labels.Users.{
  User, Store, admin, user, ok, new_user, get, mutate, read_locked, write_locked, find_user,
  set_user, ◌>>=◌,
}
use llama_labels.Users.Operations.{
  set_last_used_totp_step, set_password, consume_recovery_code, advance_step,
}
use llama_labels.Users.Mutation.{KeepsId, answered, get-mutate, seen}
use llama_labels.Users.Steps.{Later, unchanged, changed, sets_password, uses_code}
use llama_labels.Users.Replay.{totp-replay}

abbrev good_disk : Io
good_disk = record { can_read = true; can_write = true }

abbrev full_disk : Io
full_disk = record { can_read = true; can_write = false }

abbrev ann : User
ann = record (new_user "u1" "ann" "h" admin "2026-01-01T00:00:00Z") {
  totp_enabled = true;
  recovery_codes_hash = "#aaa" ∷ "#bbb" ∷ [];
}

abbrev bob : User
bob = new_user "u2" "bob" "h" user "2026-01-02T00:00:00Z"

abbrev accounts : Store
accounts = holds (record { version = 1; users = ann ∷ bob ∷ [] })

-- A hash of the code is the code after a `#`.
abbrev same_code : String → String → Bool
same_code h c = h == c

step-KeepsId : KeepsId (advance_step 7)
step-KeepsId u v e = ground arith

get-mutate_example :
    ((mutate good_disk accounts "u1" "t" (advance_step 7)).0
      ≡ answered true "t" (get good_disk accounts "u1" >>= advance_step 7))
    × (get good_disk (mutate good_disk accounts "u1" "t" (advance_step 7)).1 "u2"
        ≡ seen
            (mutate good_disk accounts "u1" "t" (advance_step 7)).0
            "u1"
            "u2"
            (get good_disk accounts "u2"))
get-mutate_example =
    get-mutate good_disk good_disk accounts "u1" "u2" "t" (advance_step 7) step-KeepsId refl

abbrev after_step : Store
after_step = (set_last_used_totp_step good_disk accounts "u1" 7 "t").1

abbrev after_more : Store
after_more =
    (consume_recovery_code same_code good_disk
      (set_password full_disk after_step "u1" (some "h2") false "t2").1 "u1" "#aaa" "t3").1

used : Later same_code after_step after_more
used =
    changed (sets_password full_disk "u1" (some "h2") false "t2")
      (changed (uses_code good_disk "u1" "#aaa" "t3") unchanged)

abbrev ann_stepped : User
ann_stepped = record ann { last_used_totp_step = 7; updated_at = "t" }

totp-replay_example : (set_last_used_totp_step good_disk after_more "u1" 6 "t4").0 ≢ ok ann_stepped
totp-replay_example =
    totp-replay same_code good_disk good_disk accounts after_more "u1" "t" "t4" 7 6 ann_stepped
      ann_stepped
      (unfold set_last_used_totp_step mutate read_locked write_locked find_user set_user in refl)
      used (omega arith)
