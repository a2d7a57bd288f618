-- ===== src/Mailcache.antt =====
-- backend/internal/mailcache/mailcache.go: what is cached of the messages of a mailbox. `itoa` is
-- strconv.Itoa.
pub mod Store
pub mod Entries
pub mod Rounds
pub mod Uses
pub mod Unmissed
pub mod Snapshots
use llama_labels.Common.{ℕ, String, Bool, true, false, ◌&&◌, List, [], ◌∷◌, ◌==◌}

pub record Entry : Type 0 where
  pub uid : ℕ
  pub message_id : String
  pub subject : String
  pub sender : String
  pub sent_to : String
  pub cc : String
  pub bcc : String
  pub keywords : List String
  pub status : String
  pub at_utc : String
  pub rev : ℕ
  pub first_rev : ℕ
  pub body : String
  pub has_attachments : Bool
  pub pgp_encrypted : Bool
  pub pgp_signed : Bool
  pub pgp_verified : Bool
  pub pgp_signer_fingerprint : String
  pub pgp_protected_subject : String

pub record Overview : Type 0 where
  pub uid : ℕ
  pub subject : String
  pub sender : String
  pub sent_to : String
  pub cc : String
  pub bcc : String
  pub keywords : List String
  pub status : String
  pub at_utc : String

pub record SyncResult : Type 0 where
  pub new : List Entry
  pub updated : List Entry
  pub removed : List Entry
  pub cursor : ℕ

pub record EntryMeta : Type 0 where
  pub subject : String
  pub sender : String
  pub sent_to : String
  pub cc : String
  pub bcc : String
  pub status : String
  pub at_utc : String
  pub keywords : List String

-- slices.Equal
abbrev pub equal_slices : List String → List String → Bool
equal_slices [] [] = true
equal_slices (s ∷ ss) (t ∷ ts) = s == t && equal_slices ss ts
equal_slices _ _ = false

abbrev pub equal : EntryMeta → EntryMeta → Bool
equal m o =
    m.subject == o.subject
    && (m.sender == o.sender
        && (m.sent_to == o.sent_to
            && (m.cc == o.cc
                && (m.bcc == o.bcc
                    && (m.status == o.status
                        && (m.at_utc == o.at_utc && equal_slices m.keywords o.keywords))))))

abbrev pub meta : Entry → EntryMeta
meta e = record {
  subject = e.subject;
  sender = e.sender;
  sent_to = e.sent_to;
  cc = e.cc;
  bcc = e.bcc;
  status = e.status;
  at_utc = e.at_utc;
  keywords = e.keywords;
}

abbrev pub overview_meta : Overview → EntryMeta
overview_meta o = record {
  subject = o.subject;
  sender = o.sender;
  sent_to = o.sent_to;
  cc = o.cc;
  bcc = o.bcc;
  status = o.status;
  at_utc = o.at_utc;
  keywords = o.keywords;
}

abbrev pub overview_meta_equal : Entry → Overview → Bool
overview_meta_equal a b = equal (meta a) (overview_meta b)

abbrev pub entry_meta_equal : Entry → Entry → Bool
entry_meta_equal a b = equal (meta a) (meta b)

abbrev pub entry_from_overview : (ℕ → String) → Overview → Entry
entry_from_overview itoa ov = record {
  uid = ov.uid;
  message_id = itoa ov.uid;
  subject = ov.subject;
  sender = ov.sender;
  sent_to = ov.sent_to;
  cc = ov.cc;
  bcc = ov.bcc;
  keywords = ov.keywords;
  status = ov.status;
  at_utc = ov.at_utc;
  rev = 0;
  first_rev = 0;
  body = "";
  has_attachments = false;
  pgp_encrypted = false;
  pgp_signed = false;
  pgp_verified = false;
  pgp_signer_fingerprint = "";
  pgp_protected_subject = "";
}
