-- ===== src/Tests/SendAs.antt =====
-- Runs of the alias store and the instances of its theorems.
use llama_labels.Common.{String, ◌≡◌, refl, true, false, some, [], ◌∷◌, ◌==◌}
use llama_labels.Common.Lists.{find_first, replace_first}
use llama_labels.Common.Stamps.{text, at}
use llama_labels.Disk.{Io, holds}
use llama_labels.Document.{peek, transact}
use llama_labels.SendAs.{
  Alias, AliasesFile, Store, get, find_verified_by_email, create, mark_verified, mark_failed,
  sweep_terminal,
}
use llama_labels.SendAs.Uses.{Uses, creates, verifies, fails, sweeps, run}
use llama_labels.SendAs.Earned.{verified-earned}
use llama_labels.SendAs.Stays.{stands, verified-stays}

abbrev good_disk : Io
good_disk = record { can_read = true; can_write = true }

abbrev lower : String → String
lower s = s

abbrev alias : String → String → String → Alias
alias id email status = record {
  id = id;
  user_id = "u";
  email = email;
  display_name = "";
  verification_code = "kp-00000000";
  status = status;
  created_at = at 0;
  expires_at = at 300;
  verified_at = text "";
  failed_at = text "";
}

abbrev two_aliases : AliasesFile
two_aliases = record {
  aliases = alias "p" "p@example.org" "pending" ∷ alias "v" "v@example.org" "verified" ∷ [];
}

abbrev started : Store
started = record { memory = two_aliases; file = holds two_aliases }

abbrev busy : Uses
busy =
    (good_disk, (10, creates (some "n") (some "kp-11111111") "u" "n@example.org" "N"))
    ∷ (good_disk, (20, fails "v"))
    ∷ (good_disk, (30, sweeps 5))
    ∷ (good_disk, (40, verifies "v"))
    ∷ []

verified-stays_example : stands (get good_disk (run lower started busy) "v").0 ≡ true
verified-stays_example =
    verified-stays "v" lower started busy good_disk (unfold find_first in (refl, refl))
      (tt, (tt, (tt, (tt, tt))))

abbrev verified_alias : Alias
verified_alias = alias "v" "v@example.org" "verified"

verified-earned_example : (verified_alias.id == "p") ≡ false
verified-earned_example =
    verified-earned "p" lower started busy good_disk "v@example.org" verified_alias (refl, refl)
      (tt, (tt, (tt, (refl, tt))))
      (unfold find_verified_by_email peek create mark_failed sweep_terminal mark_verified transact
          find_first replace_first in
        refl)
