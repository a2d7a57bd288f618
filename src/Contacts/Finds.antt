-- ===== src/Contacts/Finds.antt =====
-- Searches of a list of contacts by UID, and what the operations do to them.
use llama_labels.Common.{
  String, ◌≡◌, refl, Bool, Option, none, some, List, [], ◌∷◌, ◌++◌, arith, if◌then◌else◌, ◌==◌,
  eq_iff, keep, inl, inr, Bool-cases,
}
use llama_labels.Common.Lists.{find_first, replace_first}
use llama_labels.Contacts.{Contact, has_uid}

abbrev pub find : String → List Contact → Option Contact
find uid contacts = find_first (has_uid uid) contacts

-- No UID stands twice.
abbrev pub IsDistinct : List Contact → Type 0
IsDistinct [] = Unit
IsDistinct (c ∷ cs) = (find c.uid cs ≡ none) × IsDistinct cs

abbrev pub or_else : Option Contact → Option Contact → Option Contact
or_else none other = other
or_else (some c) other = some c

abbrev pub filtered : (Contact → Bool) → Option Contact → Option Contact
filtered p none = none
filtered p (some c) = if p c then some c else none

pub find-append :
    (u : String) (cs : List Contact) (v : Contact)
    → find u (cs ++ v ∷ []) ≡ or_else (find u cs) (if v.uid == u then some v else none)
unfolding find_first
find-append u [] v = refl
find-append u (c ∷ cs) v = ground (arith, find-append u cs v)

pub find-replace :
    (u w : String) (v e : Contact) (cs : List Contact)
    → find w cs ≡ some e
    → v.uid ≡ w
    → find u (replace_first (has_uid w) v cs) ≡ (if w == u then some v else find u cs)
unfolding find_first replace_first
find-replace u w v e [] found same = ground arith
find-replace u w v e (c ∷ cs) found same =
    ground
      (arith, eq_iff c.uid w, eq_iff c.uid u, eq_iff v.uid u, eq_iff w u, find-replace u w v e cs)

pub find-keep-none :
    (u : String) (p : Contact → Bool) (cs : List Contact)
    → find u cs ≡ none
    → find u (keep p cs) ≡ none
unfolding find_first
find-keep-none u p [] h = refl
find-keep-none u p (c ∷ cs) h = ground (arith, find-keep-none u p cs)

pub find-keep :
    (u : String) (p : Contact → Bool) (cs : List Contact)
    → IsDistinct cs
    → find u (keep p cs) ≡ filtered p (find u cs)
unfolding find_first
find-keep u p [] h = refl
find-keep u p (c ∷ cs) h =
    ground (arith, eq_iff c.uid u, find-keep u p cs h.1, find-keep-none u p cs)

pub found-uid : (u : String) (cs : List Contact) (e : Contact) → find u cs ≡ some e → e.uid ≡ u
unfolding find_first
found-uid u [] e h = ground arith
found-uid u (c ∷ cs) e h = ground (arith, eq_iff c.uid u, found-uid u cs e)

pub append-IsDistinct :
    (cs : List Contact) (v : Contact)
    → find v.uid cs ≡ none
    → IsDistinct cs
    → IsDistinct (cs ++ v ∷ [])
unfolding find_first
append-IsDistinct [] v h d = (refl, tt)
append-IsDistinct (c ∷ cs) v h d = (
  ground (arith, eq_iff v.uid c.uid, eq_iff c.uid v.uid, find-append c.uid cs v, d.0),
  append-IsDistinct cs v (ground (arith, h)) d.1,
)

pub replace-IsDistinct :
    (w : String) (v e : Contact) (cs : List Contact)
    → find w cs ≡ some e
    → v.uid ≡ w
    → IsDistinct cs
    → IsDistinct (replace_first (has_uid w) v cs)
unfolding find_first replace_first
replace-IsDistinct w v e [] found same d = tt
replace-IsDistinct w v e (c ∷ cs) found same d = elim (Bool-cases (c.uid == w)) [
  | inl q ↦ rw q (ground (arith, eq_iff c.uid w, d.0), d.1)
  | inr q ↦
      let found' : find w cs ≡ some e = ground (arith, q, found) in
      rw q (
        ground (
          arith,
          q,
          eq_iff w c.uid,
          eq_iff c.uid w,
          d.0,
          find-replace c.uid w v e cs found' same,
        ),
        replace-IsDistinct w v e cs found' same d.1,
      )
]

pub keep-IsDistinct :
    (p : Contact → Bool) (cs : List Contact) → IsDistinct cs → IsDistinct (keep p cs)
keep-IsDistinct p [] d = tt
keep-IsDistinct p (c ∷ cs) d = elim (Bool-cases (p c)) [
  | inl q ↦ rw q (find-keep-none c.uid p cs d.0, keep-IsDistinct p cs d.1)
  | inr q ↦ rw q (keep-IsDistinct p cs d.1)
]
