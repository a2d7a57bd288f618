-- ===== src/Tests/Mailcache.antt =====
-- Runs of the mail cache and the instances of its theorems.
use llama_labels.Common.{
  ℕ, String, refl, true, false, Option, none, some, List, [], ◌∷◌, nat_eq, if◌then◌else◌,
}
use llama_labels.Common.Dict.{lookup}
use llama_labels.Disk.{Io, holds}
use llama_labels.Document.Runs.{Succeeds}
use llama_labels.Mailcache.{Entry, EntryMeta, Overview, meta}
use llama_labels.Mailcache.Store.{MailCacheFile, Store, sync}
use llama_labels.Mailcache.Uses.{Use, syncs, upserts, run}
use llama_labels.Mailcache.Unmissed.{IsUnmissed, window_at, sync-IsUnmissed}

abbrev good_disk : Io
good_disk = record { can_read = true; can_write = true }

abbrev digits : ℕ → String
digits n = "n"

abbrev entry : ℕ → String → Entry
entry uid subject = record {
  uid = uid;
  message_id = "n";
  subject = subject;
  sender = "";
  sent_to = "";
  cc = "";
  bcc = "";
  keywords = [];
  status = "unread";
  at_utc = "";
  rev = 1;
  first_rev = 1;
  body = "hello";
  has_attachments = false;
  pgp_encrypted = false;
  pgp_signed = false;
  pgp_verified = false;
  pgp_signer_fingerprint = "";
  pgp_protected_subject = "";
}

abbrev overview : ℕ → String → Overview
overview uid subject = record {
  uid = uid;
  subject = subject;
  sender = "";
  sent_to = "";
  cc = "";
  bcc = "";
  keywords = [];
  status = "unread";
  at_utc = "";
}

abbrev cached : MailCacheFile
cached = record {
  mailboxes =
      ("INBOX", record { limit = 2; seq = 1; entries = entry 5 "five" ∷ entry 6 "six" ∷ [] }) ∷ [];
}

abbrev started : Store
started = record { memory = cached; file = holds cached }

abbrev seen : ℕ → Option EntryMeta
seen uid =
    if nat_eq uid 5
    then some (meta (entry 5 "five"))
    else if nat_eq uid 6
    then some (meta (entry 6 "six"))
    else none

abbrev busy : List (Io × Use)
busy =
    (good_disk, upserts "INBOX" (entry 7 "seven" ∷ []))
    ∷ (good_disk, syncs "INBOX" 2 (overview 6 "sixth" ∷ overview 7 "seven" ∷ []) 0)
    ∷ []

sync-IsUnmissed_example : Succeeds (IsUnmissed "INBOX" seen) (
    sync digits good_disk
      (run digits started busy)
      "INBOX"
      2
      (overview 6 "sixth" ∷ overview 7 "seven" ∷ [])
      (window_at "INBOX" cached).seq)
sync-IsUnmissed_example =
    sync-IsUnmissed digits "INBOX" seen cached busy good_disk 2
      (overview 6 "sixth" ∷ overview 7 "seven" ∷ []) (unfold lookup in (refl, (refl, tt))) refl refl
