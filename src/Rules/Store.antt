-- ===== src/Rules/Store.antt =====
-- backend/internal/rules/store.go: the rules of one user, in rules.json. `uuid` is a fresh UUID, or `none`
-- where the random source fails.
pub mod Found
use llama_labels.Common.{
  ℕ, ◌+◌, String, Bool, true, false, Option, none, some, List, [], ◌∷◌, ◌++◌, nat_eq, length,
  if◌then◌else◌, ◌==◌,
}
use llama_labels.Common.Lists.{replace_first, drop_first}
use llama_labels.Common.Keyed.{find, has_key}
use llama_labels.Common.Stamps.{stamp, is_empty}
use llama_labels.Disk.{File, Io}
use llama_labels.Document.{answer, fail, save, transact, peek}
use llama_labels.Document as Document
use llama_labels.Rules.{Rule, zero_order}

-- rules.json, which is also what the Go `Store` keeps in memory.
pub record RulesFile : Type 0 where
  pub rules : List Rule
  pub seq : ℕ

abbrev pub Store : Type 0
Store = Document.Store RulesFile

pub data Error : Type 0 where
  no_entropy : Error

abbrev pub Result : Type 0 → Type 0
Result = Document.Result Error

abbrev pub Change : Type 0 → Type 0
Change = Document.Change RulesFile Error

abbrev pub id_of : Rule → String
id_of r = r.id

unfoldable pub new : Io → File RulesFile → Document.Result (Unit {0}) (Unit {0}) × Store
new io file = Document.new (record { rules = []; seq = 0 }) io file

-- `sort_slice` is sort.Slice by Order, which places rules of one Order as it likes.
unfoldable pub list : (List Rule → List Rule) → Io → Store → List Rule × Store
list sort_slice io s = let s' = peek io s in (sort_slice s'.memory.rules, s')

unfoldable pub get : Io → Store → String → Option Rule × Store
get io s id = let s' = peek io s in (find id_of id s'.memory.rules, s')

abbrev pub with_rules : RulesFile → List Rule → RulesFile
with_rules d rules = record { rules = rules; seq = d.seq + 1 }

abbrev pub created : ℕ → RulesFile → Option String → Rule → Change Rule
created now d none r = fail no_entropy (with_rules d d.rules)
created now d (some id) r =
    let r' = record r {
      id = id;
      created_at = stamp now;
      order = if nat_eq r.order zero_order then zero_order + length d.rules else r.order;
    } in
    save r' (with_rules d (d.rules ++ r' ∷ []))

abbrev pub placed : ℕ → RulesFile → Rule → Option Rule → Change Rule
placed now d r none =
    let r' = record r { created_at = stamp now } in save r' (with_rules d (d.rules ++ r' ∷ []))
placed now d r (some existing) =
    let r' = record r {
      created_at = if is_empty r.created_at then existing.created_at else r.created_at;
    } in
    save r' (with_rules d (replace_first (has_key id_of r.id) r' d.rules))

abbrev pub upsert_in : ℕ → Option String → Rule → RulesFile → Change Rule
upsert_in now uuid r d =
    let r' = record r { rev = d.seq + 1; updated_at = stamp now } in
    if r.id == "" then created now d uuid r' else placed now d r' (find id_of r.id d.rules)

unfoldable pub upsert : Io → ℕ → Store → Option String → Rule → Result Rule × Store
upsert io now s uuid r = transact io s (upsert_in now uuid r)

abbrev pub deleting : String → RulesFile → Option Rule → Change Bool
deleting id d none = answer false
deleting id d (some r) = save true (record d { rules = drop_first (has_key id_of id) d.rules })

abbrev pub delete_in : String → RulesFile → Change Bool
delete_in id d = deleting id d (find id_of id d.rules)

unfoldable pub delete : Io → Store → String → Result Bool × Store
delete io s id = transact io s (delete_in id)

-- The index of an ID among `ids`, of which the first has index `i`: the last one, if it is named twice.
abbrev pub position : ℕ → List String → String → Option ℕ
position i [] id = none
position i (x ∷ ids) id = elim (position (i + 1) ids id) [
  | some p ↦ some p
  | none ↦ if x == id then some i else none
]

abbrev pub moved : ℕ → ℕ → Rule → Option ℕ → Rule
moved now seq r none = r
moved now seq r (some pos) = record r {
  order = zero_order + pos;
  rev = seq + 1;
  updated_at = stamp now;
}

abbrev pub seq_after : ℕ → Option ℕ → ℕ
seq_after seq none = seq
seq_after seq (some pos) = seq + 1

unfoldable pub reordered : ℕ → List String → ℕ → List Rule → List Rule × ℕ
reordered now ids seq [] = ([], seq)
reordered now ids seq (r ∷ rules) =
    let pos = position 0 ids r.id in
    let (rest, last) = reordered now ids (seq_after seq pos) rules in
    (moved now seq r pos ∷ rest, last)

abbrev pub reorder_in : ℕ → List String → RulesFile → Change (Unit {0})
reorder_in now ids d =
    let (rules, seq) = reordered now ids d.seq d.rules in
    save tt (record { rules = rules; seq = seq })

unfoldable pub reorder : Io → ℕ → Store → List String → Result (Unit {0}) × Store
unfolding reordered
reorder io now s ids = transact io s (reorder_in now ids)
