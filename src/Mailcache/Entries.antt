-- ===== src/Mailcache/Entries.antt =====
-- What is kept of every entry through the steps on a window.
use llama_labels.Common.{
  ℕ, ◌≡◌, refl, sym, ◌∙◌, String, true, none, some, List, [], ◌∷◌, arith, All, any, leb, nat_eq,
  Bool-cases, inl, inr, eq_iff, Option-cases,
}
use llama_labels.Mailcache.{Entry, EntryMeta, equal, equal_slices}
use llama_labels.Mailcache.Store.{has_uid, find_last, replace_last, place, sort_by_uid}

module _ (P : Entry → Type 0) where
  pub find_last-All :
      (uid : ℕ) (es : List Entry) (e : Entry)
      → All P es
      → find_last uid es ≡ some e
      → P e × (e.uid ≡ uid)
  find_last-All uid [] e h found = ground (arith, found)
  find_last-All uid (x ∷ es) e h found = elim (Option-cases (find_last uid es)) [
    | inl q ↦ elim (Bool-cases (nat_eq x.uid uid)) [
      | inl u ↦
          let same : some x ≡ some e = simp (q, u) at found in
          let same' : x ≡ e = ground (arith, same) in (rw (sym same') h.0, ground (arith, u, same'))
      | inr u ↦ let same : none ≡ some e = simp (q, u) at found in ground (arith, same)
    ]
    | inr (f, q) ↦ find_last-All uid es e h.1 (q ∙ (simp q at found))
  ]

  place-All : (e : Entry) (es : List Entry) → P e → All P es → All P (place e es)
  place-All e [] p h = (p, tt)
  place-All e (x ∷ es) p h = elim (Bool-cases (leb e.uid x.uid)) [
    | inl q ↦ rw q (p, h)
    | inr q ↦ rw q (h.0, place-All e es p h.1)
  ]

  pub sort-All : (es : List Entry) → All P es → All P (sort_by_uid es)
  sort-All [] h = tt
  sort-All (e ∷ es) h = place-All e (sort_by_uid es) h.0 (sort-All es h.1)

  pub replace_last-All :
      (uid : ℕ) (v : Entry) (es : List Entry) → P v → All P es → All P (replace_last uid v es)
  replace_last-All uid v [] p h = tt
  replace_last-All uid v (e ∷ es) p h = elim (Bool-cases (any (has_uid uid) es)) [
    | inl q ↦ rw q (h.0, replace_last-All uid v es p h.1)
    | inr q ↦ elim (Bool-cases (has_uid uid e)) [
      | inl u ↦ simp (q, u) (p, h.1)
      | inr u ↦ simp (q, u) h
    ]
  ]

equal_slices_sound : (ss ts : List String) → equal_slices ss ts ≡ true → ss ≡ ts
equal_slices_sound [] [] h = refl
equal_slices_sound [] (t ∷ ts) h = ground (arith, h)
equal_slices_sound (s ∷ ss) [] h = ground (arith, h)
equal_slices_sound (s ∷ ss) (t ∷ ts) h = ground (arith, h, eq_iff s t, equal_slices_sound ss ts)

pub equal_sound : (m o : EntryMeta) → equal m o ≡ true → m ≡ o
equal_sound m o h =
    let s : m.subject ≡ o.subject = ground (arith, h, eq_iff m.subject o.subject) in
    let f : m.sender ≡ o.sender = ground (arith, h, eq_iff m.sender o.sender) in
    let t : m.sent_to ≡ o.sent_to = ground (arith, h, eq_iff m.sent_to o.sent_to) in
    let c : m.cc ≡ o.cc = ground (arith, h, eq_iff m.cc o.cc) in
    let b : m.bcc ≡ o.bcc = ground (arith, h, eq_iff m.bcc o.bcc) in
    let u : m.status ≡ o.status = ground (arith, h, eq_iff m.status o.status) in
    let a : m.at_utc ≡ o.at_utc = ground (arith, h, eq_iff m.at_utc o.at_utc) in
    let k : m.keywords ≡ o.keywords = ground (arith, h, equal_slices_sound m.keywords o.keywords) in
    ground (arith, s, f, t, c, b, u, a, k)
