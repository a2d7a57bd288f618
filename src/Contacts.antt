-- ===== src/Contacts.antt =====
-- backend/internal/contacts/contacts.go and store.go: the address book of one user, in contacts.json.
pub mod Operations
pub mod Finds
pub mod Ops
pub mod Clears
pub mod Tracked
pub mod Kept
pub mod Sync
pub mod Self
pub mod Guarded
use llama_labels.Common.{ℕ, ◌+◌, String, Bool, true, false, List, [], ◌∷◌, ◌==◌}
use llama_labels.Common.Stamps.{Stamp}
use llama_labels.Document as Document

pub record ContactValue : Type 0 where
  pub label : String
  pub value : String

pub record ContactAddress : Type 0 where
  pub label : String
  pub street : String
  pub city : String
  pub region : String
  pub postal_code : String
  pub country : String

pub record ContactIm : Type 0 where
  pub service : String
  pub label : String
  pub value : String

pub record ContactUrl : Type 0 where
  pub label : String
  pub value : String

pub record ContactRelation : Type 0 where
  pub label : String
  pub name : String

pub record ContactEvent : Type 0 where
  pub label : String
  pub date : String

pub record ContactCustomField : Type 0 where
  pub label : String
  pub value : String

pub record Contact : Type 0 where
  pub uid : String
  pub rev : ℕ
  pub deleted : Bool
  pub created_at : Stamp
  pub updated_at : Stamp
  pub is_self : Bool
  pub formatted_name : String
  pub given_name : String
  pub family_name : String
  pub middle_name : String
  pub prefix : String
  pub suffix : String
  pub nickname : String
  pub org : String
  pub title : String
  pub emails : List ContactValue
  pub phones : List ContactValue
  pub addresses : List ContactAddress
  pub notes : String
  pub birthday : String
  pub photo_ref : String
  pub group_ids : List String
  pub pgp_key : String
  pub ims : List ContactIm
  pub websites : List ContactUrl
  pub relations : List ContactRelation
  pub events : List ContactEvent
  pub phonetic_given_name : String
  pub phonetic_family_name : String
  pub department : String
  pub custom_fields : List ContactCustomField
  pub pronouns : String
  pub merged_uids : List String
  pub merged_into : String

-- What identifies the contact, how it changed last and where it was merged stay.
abbrev pub tombstone : Contact → Contact
tombstone c = record c {
  deleted = true;
  formatted_name = "";
  given_name = "";
  family_name = "";
  middle_name = "";
  prefix = "";
  suffix = "";
  nickname = "";
  org = "";
  title = "";
  emails = [];
  phones = [];
  addresses = [];
  notes = "";
  birthday = "";
  photo_ref = "";
  group_ids = [];
  pgp_key = "";
  ims = [];
  websites = [];
  relations = [];
  events = [];
  phonetic_given_name = "";
  phonetic_family_name = "";
  department = "";
  custom_fields = [];
  pronouns = "";
  is_self = false;
  merged_uids = [];
}

-- contacts.json, which is also what the Go `Store` keeps in memory.
pub record ContactsFile : Type 0 where
  pub contacts : List Contact
  pub seq : ℕ
  pub gc_high_water_rev : ℕ

abbrev pub Store : Type 0
Store = Document.Store ContactsFile

pub data Error : Type 0 where
  no_entropy precondition_failed : Error

abbrev pub Result : Type 0 → Type 0
Result = Document.Result Error

abbrev pub Change : Type 0 → Type 0
Change = Document.Change ContactsFile Error

abbrev pub has_uid : String → Contact → Bool
has_uid uid c = c.uid == uid
