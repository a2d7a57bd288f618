-- ===== src/SendAs.antt =====
-- backend/internal/sendas/sendas.go and store.go: the send-as aliases of one user, in
-- send_as_aliases.json. `to_lower` is strings.ToLower; `uuid` and `code` are a fresh UUID and a fresh
-- verification code, or `none` where the random source fails.
pub mod Uses
pub mod Earned
pub mod Stays
use llama_labels.Common.{
  ℕ, ◌+◌, ◌*◌, ◌/◌, String, Bool, true, false, not, ◌&&◌, Option, none, some, List, [], ◌∷◌, ◌++◌,
  ltb, any, keep, if◌then◌else◌, ◌==◌,
}
use llama_labels.Common.Lists.{find_first, replace_first, drop_first}
use llama_labels.Common.Keyed.{find, has_key}
use llama_labels.Common.Stamps.{Stamp, text, stamp, parse_stamp}
use llama_labels.Disk.{File, Io}
use llama_labels.Document.{answer, fail, save, transact, peek}
use llama_labels.Document as Document
use llama_labels.Lockout.{minute}

pub record Alias : Type 0 where
  pub id : String
  pub user_id : String
  pub email : String
  pub display_name : String
  pub verification_code : String
  pub status : String
  pub created_at : Stamp
  pub expires_at : Stamp
  pub verified_at : Stamp
  pub failed_at : Stamp

-- send_as_aliases.json, which is also what the Go `Store` keeps in memory.
pub record AliasesFile : Type 0 where
  pub aliases : List Alias

abbrev pub Store : Type 0
Store = Document.Store AliasesFile

pub data Error : Type 0 where
  no_entropy no_alias not_pending : Error

abbrev pub Result : Type 0 → Type 0
Result = Document.Result Error

abbrev pub Change : Type 0 → Type 0
Change = Document.Change AliasesFile Error

abbrev pub id_of : Alias → String
id_of a = a.id

abbrev pub is_verified : Alias → Bool
is_verified a = a.status == "verified"

abbrev pub pending_expiry : ℕ
pending_expiry = 5 * minute

unfoldable pub new : Io → File AliasesFile → Document.Result (Unit {0}) (Unit {0}) × Store
new io file = Document.new (record { aliases = [] }) io file

unfoldable pub list : Io → Store → List Alias × Store
list io s = let s' = peek io s in (s'.memory.aliases, s')

unfoldable pub list_verified : Io → Store → List Alias × Store
list_verified io s = let s' = peek io s in (keep is_verified s'.memory.aliases, s')

unfoldable pub find_verified_by_email :
    (String → String) → Io → Store → String → Option Alias × Store
find_verified_by_email to_lower io s email =
    let s' = peek io s in
    (find_first (λ a. is_verified a && to_lower a.email == to_lower email) s'.memory.aliases, s')

unfoldable pub get : Io → Store → String → Option Alias × Store
get io s id = let s' = peek io s in (find id_of id s'.memory.aliases, s')

-- The text is a time, and not before `now`.
abbrev pub is_ahead : ℕ → Option ℕ → Bool
is_ahead now none = false
is_ahead now (some t) = not (ltb t now)

unfoldable pub pending_not_expired : Io → ℕ → Store → List Alias × Store
pending_not_expired io now s =
    let s' = peek io s in
    (
      keep (λ a. a.status == "pending" && is_ahead now (parse_stamp a.expires_at))
          s'.memory.aliases,
      s',
    )

-- A drawn ID and code, or the failure of the random source.
abbrev pub create_with :
    ℕ → String → String → String → Option String → Option String → AliasesFile → Change Alias
create_with now user_id email display_name none code d = fail no_entropy d
create_with now user_id email display_name (some id) none d = fail no_entropy d
create_with now user_id email display_name (some id) (some code) d =
    let a : Alias = record {
      id = id;
      user_id = user_id;
      email = email;
      display_name = display_name;
      verification_code = code;
      status = "pending";
      created_at = stamp now;
      expires_at = stamp (now + pending_expiry);
      verified_at = text "";
      failed_at = text "";
    } in
    save a (record { aliases = d.aliases ++ a ∷ [] })

unfoldable pub create :
    (String → String)
    → Io
    → ℕ
    → Store
    → Option String
    → Option String
    → String
    → String
    → String
    → Result Alias × Store
create to_lower io now s uuid code user_id email display_name =
    transact io s (create_with now user_id (to_lower email) display_name uuid code)

abbrev pub verifying : ℕ → String → AliasesFile → Option Alias → Change (Unit {0})
verifying now id d none = fail no_alias d
verifying now id d (some a) =
    if is_verified a
    then answer tt
    else save tt (record {
      aliases =
          replace_first (has_key id_of id)
            (record a { status = "verified"; verified_at = stamp now }) d.aliases;
    })

abbrev pub verify_in : ℕ → String → AliasesFile → Change (Unit {0})
verify_in now id d = verifying now id d (find id_of id d.aliases)

unfoldable pub mark_verified : Io → ℕ → Store → String → Result (Unit {0}) × Store
mark_verified io now s id = transact io s (verify_in now id)

abbrev pub failing : ℕ → String → AliasesFile → Option Alias → Change (Unit {0})
failing now id d none = fail no_alias d
failing now id d (some a) =
    if a.status == "pending"
    then save tt (record {
      aliases =
          replace_first (has_key id_of id) (record a { status = "failed"; failed_at = stamp now })
            d.aliases;
    })
    else fail not_pending d

abbrev pub fail_in : ℕ → String → AliasesFile → Change (Unit {0})
fail_in now id d = failing now id d (find id_of id d.aliases)

unfoldable pub mark_failed : Io → ℕ → Store → String → Result (Unit {0}) × Store
mark_failed io now s id = transact io s (fail_in now id)

abbrev pub deleting : String → AliasesFile → Option Alias → Change (Unit {0})
deleting id d none = fail no_alias d
deleting id d (some a) = save tt (record { aliases = drop_first (has_key id_of id) d.aliases })

abbrev pub delete_in : String → AliasesFile → Change (Unit {0})
delete_in id d = deleting id d (find id_of id d.aliases)

unfoldable pub delete : Io → Store → String → Result (Unit {0}) × Store
delete io s id = transact io s (delete_in id)

-- `failedAt.Before(now - retention)`, with the retention moved to the other side.
abbrev pub is_before : ℕ → ℕ → Option ℕ → Bool
is_before now retention none = false
is_before now retention (some t) = ltb (t + retention) now

abbrev pub is_terminal : ℕ → ℕ → Alias → Bool
is_terminal now retention a =
    a.status == "failed" && is_before now retention (parse_stamp a.failed_at)

abbrev pub sweep_in : ℕ → ℕ → AliasesFile → Change (Unit {0})
sweep_in now retention d =
    if any (is_terminal now retention) d.aliases
    then save tt (record { aliases = keep (λ a. not (is_terminal now retention a)) d.aliases })
    else answer tt

unfoldable pub sweep_terminal : Io → ℕ → Store → ℕ → Result (Unit {0}) × Store
sweep_terminal io now s retention = transact io s (sweep_in now retention)
