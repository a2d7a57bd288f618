-- ===== src/Contacts/Tracked.antt =====
-- A client's view of one contact against the file, as operations on the list of contacts move it.
use llama_labels.Common.{
  ℕ, ◌≤◌, ◌<◌, String, ◌≡◌, true, false, not, ◌&&◌, ap, Option, none, some, List, [], ◌∷◌, ◌++◌,
  arith, if◌then◌else◌, ◌==◌, ◌⊎◌, inl, inr, Bool-cases, Option-cases, ltb,
}
use llama_labels.Common.Lists.{find_first, replace_first}
use llama_labels.Contacts.{Contact, has_uid}
use llama_labels.Contacts.Operations.{is_live}
use llama_labels.Contacts.Operations.Changes.{high_water, is_expired, retained}
use llama_labels.Contacts.Finds.{find, IsDistinct, find-append, find-replace, find-keep}
use llama_labels.Contacts.Clears.{Moved}

-- What is found now, after `cursor`, of a contact that was `old` at the cursor: a newer revision or the
-- same contact; or nothing, though it was live, only once the collection has passed the cursor.
abbrev pub Follows : ℕ → Option Contact → Option Contact → ℕ → Type 0
Follows cursor old none mark = (is_live old ≡ false) ⊎ (cursor < mark)
Follows cursor old (some c) mark = (cursor < c.rev) ⊎ (old ≡ some c)

pub append-Follows :
    (u : String) (cursor mark : ℕ) (old : Option Contact) (cs : List Contact) (v : Contact)
    → cursor < v.rev
    → Follows cursor old (find u cs) mark
    → Follows cursor old (find u (cs ++ v ∷ [])) mark
append-Follows u cursor mark old cs v lt h = rw (find-append u cs v) (ground (arith, h))

pub replace-Follows :
    (u w : String) (cursor mark : ℕ) (old : Option Contact) (cs : List Contact) (v e : Contact)
    → cursor < v.rev
    → find w cs ≡ some e
    → v.uid ≡ w
    → Follows cursor old (find u cs) mark
    → Follows cursor old (find u (replace_first (has_uid w) v cs)) mark
replace-Follows u w cursor mark old cs v e lt found same h =
    rw (find-replace u w v e cs found same) (ground (arith, h))

pub Moved-Follows :
    (cursor seq mark : ℕ) (old o o' : Option Contact)
    → cursor ≤ seq
    → Moved seq o o'
    → Follows cursor old o mark
    → Follows cursor old o' mark
Moved-Follows cursor seq mark old none none le m h = h
Moved-Follows cursor seq mark old none (some c') le m h = absurd m
Moved-Follows cursor seq mark old (some c) none le m h = absurd m
Moved-Follows cursor seq mark old (some c) (some c') le (inl e) h = rw e h
Moved-Follows cursor seq mark old (some c) (some c') le (inr lt) h = inl (omega (arith, lt))

high_water-le :
    (now retention mark : ℕ) (cs : List Contact) → mark ≤ high_water now retention mark cs
high_water-le now retention mark [] = omega arith
high_water-le now retention mark (c ∷ cs) =
    elim (Bool-cases (is_expired now retention c && ltb mark c.rev)) [
      | inl e ↦ rw e (ground (arith, e, high_water-le now retention c.rev cs))
      | inr e ↦ rw e (high_water-le now retention mark cs)
    ]

rev-le-high_water :
    (u : String) (now retention mark : ℕ) (cs : List Contact) (c : Contact)
    → find u cs ≡ some c
    → is_expired now retention c ≡ true
    → c.rev ≤ high_water now retention mark cs
unfolding find_first
rev-le-high_water u now retention mark [] c found e = ground arith
rev-le-high_water u now retention mark (x ∷ cs) c found e = elim (Bool-cases (x.uid == u)) [
  | inl q ↦
      let same : x ≡ c = ground (arith, rw q at found) in
      let expired : is_expired now retention x ≡ true = rw same e in
      ground (
        arith,
        expired,
        ap (λ y. y.rev) same,
        high_water-le now retention x.rev cs,
        high_water-le now retention mark cs,
      )
  | inr q ↦
      let found' : find u cs ≡ some c = ground (arith, q, found) in
      rev-le-high_water u now retention
        (if is_expired now retention x && ltb mark x.rev then x.rev else mark) cs c found' e
]

pub retained-Follows :
    (u : String) (now retention cursor mark : ℕ) (old : Option Contact) (cs : List Contact)
    → IsDistinct cs
    → Follows cursor old (find u cs) mark
    → Follows cursor old (find u (retained now retention cs)) (high_water now retention mark cs)
retained-Follows u now retention cursor mark old cs d h =
    rw (find-keep u (λ c. not (is_expired now retention c)) cs d) (elim (Option-cases (find u cs)) [
      | inl e ↦ rw e (ground (arith, rw e at h, high_water-le now retention mark cs))
      | inr (c, e) ↦
          let h' : Follows cursor old (some c) mark = rw e at h in
          rw e (ground (arith, h', rev-le-high_water u now retention mark cs c e))
    ])
