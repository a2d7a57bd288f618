-- ===== src/Mailcache/Store.antt =====
-- backend/internal/mailcache/store.go: the windows of a user's mailboxes, in mailcache.json. sort.Slice
-- leaves open how messages of the same UID stand; here they keep their order.
use llama_labels.Common.{
  ℕ, ◌+◌, ◌-◌, String, Bool, false, not, ◌&&◌, Option, none, some, List, [], ◌∷◌, ◌++◌, nat_eq, ltb,
  leb, any, keep, length, drop, if◌then◌else◌, ◌==◌,
}
use llama_labels.Common.Dict.{Dict, lookup, insert}
use llama_labels.Disk.{File, Io}
use llama_labels.Document.{answer, save, transact, peek}
use llama_labels.Document as Document
use llama_labels.Mailcache.{
  Entry, Overview, SyncResult, overview_meta_equal, entry_meta_equal, entry_from_overview,
}

abbrev pub max_window_entries : ℕ
max_window_entries = 5000

pub record MailboxWindow : Type 0 where
  pub limit : ℕ
  pub seq : ℕ
  pub entries : List Entry

-- mailcache.json, which is also what the Go `Store` keeps in memory.
pub record MailCacheFile : Type 0 where
  pub mailboxes : Dict MailboxWindow

abbrev pub Store : Type 0
Store = Document.Store MailCacheFile

abbrev pub Result : Type 0 → Type 0
Result = Document.Result (Unit {0})

abbrev pub Change : Type 0 → Type 0
Change = Document.Change MailCacheFile (Unit {0})

unfoldable pub new : Io → File MailCacheFile → Document.Result (Unit {0}) (Unit {0}) × Store
new io file = Document.new (record { mailboxes = [] }) io file

abbrev pub has_uid : ℕ → Entry → Bool
has_uid uid e = nat_eq e.uid uid

-- The last entry of a UID, which is what a map from UIDs gives that the entries fill in order.
abbrev pub find_last : ℕ → List Entry → Option Entry
find_last uid [] = none
find_last uid (e ∷ es) = elim (find_last uid es) [
  | some f ↦ some f
  | none ↦ if has_uid uid e then some e else none
]

abbrev pub replace_last : ℕ → Entry → List Entry → List Entry
replace_last uid v [] = []
replace_last uid v (e ∷ es) =
    let rest = replace_last uid v es in
    if any (has_uid uid) es then e ∷ rest else if has_uid uid e then v ∷ es else e ∷ es

abbrev pub place : Entry → List Entry → List Entry
place e [] = e ∷ []
place e (x ∷ xs) = let rest = place e xs in if leb e.uid x.uid then e ∷ x ∷ xs else x ∷ rest

abbrev pub sort_by_uid : List Entry → List Entry
sort_by_uid [] = []
sort_by_uid (e ∷ es) = place e (sort_by_uid es)

abbrev pub snapshot_of : ℕ → Option MailboxWindow → List Entry × Bool
snapshot_of limit none = ([], false)
snapshot_of limit (some win) =
    if ltb (length win.entries) limit
    then (win.entries, false)
    else let out = drop (length win.entries - limit) win.entries in
      (out, not (any (λ e. e.body == "") out))

-- `none` stands for the nil slice that goes with a limit of 0 and with a mailbox without a window.
unfoldable pub snapshot : Io → Store → String → ℕ → (List Entry × Bool) × Store
snapshot io s mailbox_key limit =
    if nat_eq limit 0
    then (([], false), peek io s)
    else let s' = peek io s in (snapshot_of limit (lookup mailbox_key s'.memory.mailboxes), s')

abbrev empty_window : MailboxWindow
empty_window = record { limit = 0; seq = 0; entries = [] }

abbrev pub window_of : Option MailboxWindow → MailboxWindow
window_of none = empty_window
window_of (some win) = win

-- The entry of an overview, with the sequence number after it: a new one, one whose metadata changed, or
-- the entry as it was.
abbrev pub synced : (ℕ → String) → Overview → ℕ → Option Entry → Entry × ℕ
synced itoa ov seq none =
    (record (entry_from_overview itoa ov) { rev = seq + 1; first_rev = seq + 1 }, seq + 1)
synced itoa ov seq (some prev) = if overview_meta_equal prev ov then (prev, seq) else (
  record (entry_from_overview itoa ov) {
    rev = seq + 1;
    first_rev = prev.first_rev;
    body = prev.body;
    has_attachments = prev.has_attachments;
    pgp_encrypted = prev.pgp_encrypted;
    pgp_signed = prev.pgp_signed;
    pgp_verified = prev.pgp_verified;
    pgp_signer_fingerprint = prev.pgp_signer_fingerprint;
    pgp_protected_subject = prev.pgp_protected_subject;
  },
  seq + 1,
)

unfoldable pub sync_all : (ℕ → String) → List Entry → ℕ → List Overview → List Entry × ℕ
sync_all itoa prev seq [] = ([], seq)
sync_all itoa prev seq (ov ∷ live) =
    let (e, seq') = synced itoa ov seq (find_last ov.uid prev) in
    let (rest, last) = sync_all itoa prev seq' live in (e ∷ rest, last)

abbrev pub is_reset : ℕ → MailboxWindow → Bool
is_reset limit win = not (nat_eq win.limit 0) && not (nat_eq win.limit limit)

abbrev pub delta_of : ℕ → List Entry → ℕ → List Entry → SyncResult
delta_of since removed cursor entries = record {
  new = keep (λ e. ltb since e.rev && ltb since e.first_rev) entries;
  updated = keep (λ e. ltb since e.rev && not (ltb since e.first_rev)) entries;
  removed = removed;
  cursor = cursor;
}

abbrev pub sync_window : (ℕ → String) → ℕ → List Overview → MailboxWindow → MailboxWindow
sync_window itoa limit live win =
    let prev = if is_reset limit win then [] else win.entries in
    let (next, seq) = sync_all itoa prev win.seq live in
    record { limit = limit; seq = seq; entries = sort_by_uid next }

abbrev pub removed_from : ℕ → List Overview → MailboxWindow → List Entry
removed_from limit live win =
    if is_reset limit win
    then []
    else keep (λ e. not (any (λ ov. nat_eq ov.uid e.uid) live)) win.entries

abbrev pub sync_in :
    (ℕ → String) → String → ℕ → List Overview → ℕ → MailCacheFile → Change SyncResult
sync_in itoa mailbox_key limit live since d =
    let win = window_of (lookup mailbox_key d.mailboxes) in
    let win' = sync_window itoa limit live win in
    save (delta_of since (removed_from limit live win) win'.seq win'.entries)
      (record { mailboxes = insert mailbox_key win' d.mailboxes })

unfoldable pub sync :
    (ℕ → String) → Io → Store → String → ℕ → List Overview → ℕ → Result SyncResult × Store
unfolding sync_all
sync itoa io s mailbox_key limit live since =
    transact io s (sync_in itoa mailbox_key limit live since)

-- The stored entry with what a fresh one brings: a body, and what is known only with it, if it has one.
abbrev pub merged : Entry → Entry → Entry
merged stored fresh =
    let with_meta = record stored {
      subject = fresh.subject;
      sender = fresh.sender;
      sent_to = fresh.sent_to;
      cc = fresh.cc;
      bcc = fresh.bcc;
      keywords = fresh.keywords;
      status = fresh.status;
      at_utc = fresh.at_utc;
      has_attachments = fresh.has_attachments;
    } in
    if fresh.body == "" then with_meta else record with_meta {
      body = fresh.body;
      pgp_encrypted = fresh.pgp_encrypted;
      pgp_signed = fresh.pgp_signed;
      pgp_verified = fresh.pgp_verified;
      pgp_signer_fingerprint = fresh.pgp_signer_fingerprint;
      pgp_protected_subject = fresh.pgp_protected_subject;
    }

abbrev pub upsert_entry : Entry → MailboxWindow → Option Entry → MailboxWindow
upsert_entry fresh win none = record win {
  seq = win.seq + 1;
  entries = win.entries ++ record fresh { rev = win.seq + 1; first_rev = win.seq + 1 } ∷ [];
}
upsert_entry fresh win (some stored) =
    if entry_meta_equal stored fresh
    then record win { entries = replace_last fresh.uid (merged stored fresh) win.entries }
    else record win {
      seq = win.seq + 1;
      entries =
          replace_last fresh.uid (record (merged stored fresh) { rev = win.seq + 1 }) win.entries;
    }

unfoldable pub upsert_all : List Entry → MailboxWindow → MailboxWindow
upsert_all [] win = win
upsert_all (fresh ∷ entries) win =
    upsert_all entries (upsert_entry fresh win (find_last fresh.uid win.entries))

abbrev pub trimmed : MailboxWindow → MailboxWindow
trimmed win =
    let sorted = sort_by_uid win.entries in
    record win { entries = drop (length sorted - max_window_entries) sorted }

abbrev pub upsert_in : String → List Entry → MailCacheFile → Change (Unit {0})
upsert_in mailbox_key entries d =
    let win = window_of (lookup mailbox_key d.mailboxes) in
    save tt
      (record { mailboxes = insert mailbox_key (trimmed (upsert_all entries win)) d.mailboxes })

abbrev pub upserting : Io → Store → String → List Entry → Result (Unit {0}) × Store
upserting io s mailbox_key [] = (Document.ok tt, s)
upserting io s mailbox_key (e ∷ entries) = transact io s (upsert_in mailbox_key (e ∷ entries))

unfoldable pub upsert : Io → Store → String → List Entry → Result (Unit {0}) × Store
unfolding upsert_all
upsert io s mailbox_key entries = upserting io s mailbox_key entries
