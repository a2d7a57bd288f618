-- ===== src/Rules/Store/Found.antt =====
-- What Get finds after a write.
use llama_labels.Common.{
  ℕ, ◌+◌, String, ◌≡◌, refl, ap, true, false, Option, none, some, List, [], ◌∷◌, ◌++◌, arith,
  length, any, if◌then◌else◌, ◌==◌, ◌∙◌, Bool-cases, inl, inr, eq_refl, eq_iff,
}
use mathlib.Core.Option.{map}
use llama_labels.Common.Lists.{find_first}
use llama_labels.Common.Keyed.{find, find-append_new, find-replace}
use llama_labels.Common.Stamps.{stamp}
use llama_labels.Disk.{Io, holds}
use llama_labels.Document.{transact, peek, save}
use llama_labels.Document as Document
use llama_labels.Document.Runs.{transact-save, peek-memory}
use llama_labels.Rules.{Rule, zero_order}
use llama_labels.Rules.Store.{
  RulesFile, Store, Result, Change, id_of, get, upsert, upsert_in, placed, position, moved,
  seq_after, reordered, reorder, reorder_in,
}

-- The operation answers `a`, and every rule is found from then on as `after` says.
abbrev pub Leaves : {A : Type 0} → Result A × Store → A → (String → Option Rule) → Type 0
Leaves (r, s) a after =
    (r ≡ Document.ok a)
    × ((io : Io) (id : String) → io.can_read ≡ true → (get io s id).0 ≡ after id)

saved-Leaves :
    {A : Type 0} (io : Io) (s : Store) (d d' : RulesFile) (change : RulesFile → Change A) (a : A)
    (after : String → Option Rule)
    → s.file ≡ holds d
    → io.can_read ≡ true
    → io.can_write ≡ true
    → change d ≡ save a d'
    → ((id : String) → find id_of id d'.rules ≡ after id)
    → Leaves (transact io s change) a after
unfolding get
saved-Leaves io s d d' change a after h reads writes e found =
    rw (transact-save io s change d d' a h reads writes e)
      (refl, λ io' id r. ap (λ m. find id_of id m.rules) (peek-memory io' _ d' refl r) ∙ found id)

-- The rule as it is stored: as given, with the next revision, and a time of creation.
abbrev pub IsStored : ℕ → RulesFile → Rule → Rule → Type 0
IsStored now d r r' =
    r' ≡ record r { rev = d.seq + 1; updated_at = stamp now; created_at = r'.created_at }

Upserted : ℕ → RulesFile → Rule → Change Rule → Type 0
Upserted now d r c =
    (r' : Rule) × ((d' : RulesFile) × ((c ≡ save r' d')
        × (IsStored now d r r'
            × ((id : String)
                → find id_of id d'.rules
                  ≡ (if r.id == id then some r' else find id_of id d.rules)))))

placed-Upserted :
    (now : ℕ) (d : RulesFile) (r : Rule) (o : Option Rule)
    → find id_of r.id d.rules ≡ o
    → Upserted now d r (placed now d (record r { rev = d.seq + 1; updated_at = stamp now }) o)
unfolding Upserted
placed-Upserted now d r none found =
    (_, (_, (refl, (refl, λ id. find-append_new id_of id d.rules _ found))))
placed-Upserted now d r (some x) found =
    (_, (_, (refl, (refl, λ id. find-replace id_of id r.id _ x d.rules found refl))))

-- Creating or replacing a rule with an ID, on a file that is read and written: every read finds the rule
-- that was answered under its ID and what was there before under any other; it is the given rule with the
-- next revision, the time, and a time of creation.
pub get-upsert :
    (io : Io) (now : ℕ) (s : Store) (d : RulesFile) (uuid : Option String) (r : Rule)
    → s.file ≡ holds d
    → io.can_read ≡ true
    → io.can_write ≡ true
    → (r.id == "") ≡ false
    → (r' : Rule) × (IsStored now d r r'
        × Leaves
            (upsert io now s uuid r)
            r'
            (λ id. if r.id == id then some r' else find id_of id d.rules))
unfolding upsert Upserted
get-upsert io now s d uuid r h reads writes named =
    let (r', (d', (saves, (stored, found)))) = placed-Upserted now d r _ refl in
    (
      r',
      (
        stored,
        saved-Leaves io s d d' (upsert_in now uuid r) r' _ h reads writes (simp named saves) found,
      ),
    )

position-none :
    (i : ℕ) (id : String) (ids : List String)
    → any (λ x. x == id) ids ≡ false
    → position i ids id ≡ none
position-none i id [] h = refl
position-none i id (x ∷ ids) h =
    let later : any (λ x. x == id) ids ≡ false = ground (arith, h) in
    rw (position-none (i + 1) id ids later) (ground (arith, h))

position-last :
    (i : ℕ) (id : String) (before after : List String)
    → any (λ x. x == id) after ≡ false
    → position i (before ++ id ∷ after) id ≡ some (i + length before)
position-last i id [] after last =
    rw (position-none (i + 1) id after last, eq_refl id) (ap some (omega arith))
position-last i id (x ∷ before) after last =
    rw (position-last (i + 1) id before after last) (ap some (omega arith))

moved-id : (now seq : ℕ) (r : Rule) (o : Option ℕ) → (moved now seq r o).id ≡ r.id
moved-id now seq r none = refl
moved-id now seq r (some pos) = refl

reordered-find :
    (now : ℕ) (ids : List String) (id : String) (pos seq : ℕ) (rules : List Rule) (r : Rule)
    → position 0 ids id ≡ some pos
    → find id_of id rules ≡ some r
    → (rev : ℕ) × (find id_of id (reordered now ids seq rules).0
        ≡ some (record r { order = zero_order + pos; rev = rev; updated_at = stamp now }))
unfolding reordered find_first
reordered-find now ids id pos seq [] r at_pos found = ground arith
reordered-find now ids id pos seq (x ∷ rules) r at_pos found = elim (Bool-cases (x.id == id)) [
  | inl e ↦
      let named : x.id ≡ id = (eq_iff x.id id).0 e in
      let at' : position 0 ids x.id ≡ some pos = rw named at_pos in
      let same : some x ≡ some r = simp e at found in
      (
        seq + 1,
        simp (at', e)
            (ap
              (map {A = Rule}
                (λ y. record y { order = zero_order + pos; rev = seq + 1; updated_at = stamp now }))
              same),
      )
  | inr e ↦
      let found' : find id_of id rules ≡ some r = simp e at found in
      let (rev, h) =
        reordered-find now ids id pos (seq_after seq (position 0 ids x.id)) rules r at_pos found' in
      (rev, simp (moved-id now seq x (position 0 ids x.id), e) h)
]

-- Reorder on a file that is read and written: it succeeds, and afterwards every read finds a rule that `ids`
-- names last after `before` at the Order of that place, with the time of the change, and otherwise as it
-- was but for its revision.
pub get-reorder :
    (io io' : Io) (now : ℕ) (s : Store) (d : RulesFile) (id : String) (before after : List String)
    (r : Rule)
    → s.file ≡ holds d
    → io.can_read ≡ true
    → io.can_write ≡ true
    → io'.can_read ≡ true
    → any (λ x. x == id) after ≡ false
    → find id_of id d.rules ≡ some r
    → ((reorder io now s (before ++ id ∷ after)).0 ≡ Document.ok tt)
      × ((rev : ℕ) × ((get io' (reorder io now s (before ++ id ∷ after)).1 id).0
            ≡ some (record r {
              order = zero_order + length before;
              rev = rev;
              updated_at = stamp now;
            })))
unfolding reorder get
get-reorder io io' now s d id before after r h reads writes reads' last found =
    let ids = before ++ id ∷ after in
    let last_place : position 0 ids id ≡ some (length before) =
      position-last 0 id before after last ∙ ap some (omega arith) in
    let (rev, stands) =
      reordered-find now ids id (length before) d.seq d.rules r last_place found in
    let done =
      saved-Leaves io s d _ (reorder_in now ids) tt _ h reads writes refl (λ other. refl) in
    (done.0, (rev, done.1 io' id reads' ∙ stands))
