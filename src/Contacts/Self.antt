-- ===== src/Contacts/Self.antt =====
-- contacts/store.go, SetSelf: one contact at most is the caller's own.
use llama_labels.Common.{
  ℕ, ◌+◌, String, ◌≡◌, refl, sym, ap, true, Option, none, some, List, [], ◌∷◌, arith, ◌==◌, ◌∙◌,
  inl, inr, Bool-cases, keep, nat_eq, if◌then◌else◌,
}
use llama_labels.Common.Lists.{find_first, replace_first}
use llama_labels.Disk.{Io, holds}
use llama_labels.Document.{changed, transact}
use llama_labels.Document as Document
use llama_labels.Contacts.{Contact, ContactsFile, Store, Result, has_uid}
use llama_labels.Contacts.Operations.SelfFlag.{
  clear_all, clear_others, cleared, taken, flagged, set_target, set_self,
}
use llama_labels.Contacts.Finds.{find, found-uid}
use llama_labels.Contacts.Clears.{clear_all-le, clear_others-le, cleared-uid}

abbrev pub selves : List Contact → List Contact
selves cs = keep (λ c. c.is_self) cs

cleared-selves :
    (now seq : ℕ) (c : Contact) (cs : List Contact) → selves (cleared now seq c ∷ cs) ≡ selves cs
cleared-selves now seq c cs = elim (Bool-cases c.is_self) [
  | inl e ↦ simp e refl
  | inr e ↦ simp e refl
]

selves-clear_all : (now seq : ℕ) (cs : List Contact) → selves (clear_all now seq cs).0 ≡ []
unfolding clear_all
selves-clear_all now seq [] = refl
selves-clear_all now seq (c ∷ cs) =
    rw (cleared-selves now seq c (clear_all now (taken seq c) cs).0)
      (selves-clear_all now (taken seq c) cs)

-- All that is left is the contact that keeps its flag.
abbrev own : Option Contact → List Contact
own none = []
own (some x) = if x.is_self then x ∷ [] else []

selves-clear_others :
    (now : ℕ) (uid : String) (seq : ℕ) (cs : List Contact)
    → selves (clear_others now uid seq cs).0 ≡ own (find uid cs)
unfolding clear_others find_first
selves-clear_others now uid seq [] = refl
selves-clear_others now uid seq (c ∷ cs) = elim (Bool-cases (c.uid == uid)) [
  | inl e ↦ simp (e, selves-clear_all now seq cs) refl
  | inr e ↦
      let others = clear_others now uid (taken seq c) cs in
      simp e (cleared-selves now seq c others.0 ∙ selves-clear_others now uid (taken seq c) cs)
]

selves-flagged :
    (now : ℕ) (uid : String) (seq : ℕ) (v : Contact) (cs : List Contact) (x : Contact)
    → v.is_self ≡ true
    → find uid cs ≡ some x
    → selves (replace_first (has_uid uid) v (clear_others now uid seq cs).0) ≡ v ∷ []
unfolding clear_others find_first replace_first
selves-flagged now uid seq v [] x mine found = ground arith
selves-flagged now uid seq v (c ∷ cs) x mine found = elim (Bool-cases (c.uid == uid)) [
  | inl e ↦ simp (e, mine, selves-clear_all now seq cs) refl
  | inr e ↦
      let found' : find uid cs ≡ some x = ground (arith, e, found) in
      let others = clear_others now uid (taken seq c) cs in
      simp (e, cleared-uid now seq c)
        (cleared-selves now seq c (replace_first (has_uid uid) v others.0)
          ∙ selves-flagged now uid (taken seq c) v cs x mine found')
]

-- No revision is taken only where nothing is cleared.
clear_all-idle :
    (now seq : ℕ) (cs : List Contact)
    → (clear_all now seq cs).1 ≡ seq
    → (clear_all now seq cs).0 ≡ cs
unfolding clear_all
clear_all-idle now seq [] h = refl
clear_all-idle now seq (c ∷ cs) h = elim (Bool-cases c.is_self) [
  | inl e ↦ ground (arith, e, clear_all-le now (seq + 1) cs, h)
  | inr e ↦ simp e (ap (λ rest. c ∷ rest) (clear_all-idle now seq cs (simp e at h)))
]

clear_others-idle :
    (now : ℕ) (uid : String) (seq : ℕ) (cs : List Contact)
    → (clear_others now uid seq cs).1 ≡ seq
    → (clear_others now uid seq cs).0 ≡ cs
unfolding clear_others
clear_others-idle now uid seq [] h = refl
clear_others-idle now uid seq (c ∷ cs) h = elim (Bool-cases (c.uid == uid)) [
  | inl q ↦ simp q (ap (λ rest. c ∷ rest) (clear_all-idle now seq cs (simp q at h)))
  | inr q ↦ elim (Bool-cases c.is_self) [
    | inl e ↦ ground (arith, q, e, clear_others-le now uid (seq + 1) cs, h)
    | inr e ↦
        simp (q, e) (ap (λ rest. c ∷ rest) (clear_others-idle now uid seq cs (simp (q, e) at h)))
  ]
]

-- The answered contact is the only one with the flag, in memory and on disk.
abbrev pub IsAlone : String → Result (Option Contact) × Store → Type 0
IsAlone uid (Document.ok (some c), s) =
    (c.uid ≡ uid) × ((selves s.memory.contacts ≡ c ∷ []) × (s.file ≡ holds s.memory))
IsAlone uid (Document.ok none, s) = ⊥
IsAlone uid (Document.err e, s) = ⊥

target-IsAlone :
    (io : Io) (now : ℕ) (uid : String) (d : ContactsFile) (x : Contact)
    → find uid d.contacts ≡ some x
    → io.can_write ≡ true
    → IsAlone uid (
        changed io
          (record { memory = d; file = holds d })
          (set_target now uid true d x (clear_others now uid d.seq d.contacts)))
target-IsAlone io now uid d x found writes =
    let same = found-uid uid d.contacts x found in
    let others = clear_others now uid d.seq d.contacts in
    elim (Bool-cases x.is_self) [
      | inl e ↦
          let left : selves others.0 ≡ x ∷ [] =
            selves-clear_others now uid d.seq d.contacts ∙ simp (found, e) refl in
          elim (Bool-cases (nat_eq others.1 d.seq)) [
            | inl n ↦
                let idle = clear_others-idle now uid d.seq d.contacts (ground (arith, n)) in
                simp (e, n) (same, (ap selves (sym idle) ∙ left, refl))
            | inr n ↦ simp (e, n, writes) (same, (left, refl))
          ]
      | inr e ↦
          simp (e, writes)
            (
              same,
              (
                selves-flagged now uid d.seq (flagged now true others.1 x) d.contacts x refl found,
                refl,
              ),
            )
    ]

-- On a readable and writable file that has the contact, setting its self flag succeeds, and leaves it the
-- only contact with the flag, in memory and on disk.
pub set_self-IsAlone :
    (io : Io) (now : ℕ) (s : Store) (d : ContactsFile) (uid : String) (x : Contact)
    → s.file ≡ holds d
    → io.can_read ≡ true
    → io.can_write ≡ true
    → find uid d.contacts ≡ some x
    → IsAlone uid (set_self io now s uid true)
unfolding set_self transact find_first
set_self-IsAlone io now s d uid x h reads writes found =
    rw (h, reads, found) (target-IsAlone io now uid d x found writes)
