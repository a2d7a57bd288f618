-- ===== src/Users/Mutation.antt =====
-- What a `mutate` does to the list of accounts.
use llama_labels.Common.{
  String, ◌≡◌, refl, sym, Bool, true, Option, none, some, List, [], ◌∷◌, arith, if◌then◌else◌, ◌==◌,
  eq_iff, Bool-cases, Option-cases, inl, inr, ◌⊎◌, ◌∙◌,
}
use llama_labels.Disk.{absent, corrupt, holds, Io, not_exist, read_failed, bad_json, write_failed}
use llama_labels.Users.{
  User, UsersFile, Store, Result, ok, err, find_user, has_id, set_user, get, mutate, read_locked,
  write_locked, with_version, mutated, mutate_in, Error, not_found, disk, or_not_found, ◌>>=◌,
}

-- A function that leaves the ID alone.
abbrev pub KeepsId : (User → Result User) → Type 0
KeepsId fn = (u v : User) → fn u ≡ ok v → v.id ≡ u.id

pub find_user-set_user :
    (id j : String) (u v : User) (us : List User)
    → find_user (has_id id) us ≡ some u
    → v.id ≡ id
    → find_user (has_id j) (set_user id v us)
      ≡ (if id == j then some v else find_user (has_id j) us)
unfolding find_user set_user
find_user-set_user id j u v [] h e = ground arith
find_user-set_user id j u v (w ∷ us) h e = ground (
  arith,
  eq_iff w.id id,
  eq_iff w.id j,
  eq_iff id j,
  eq_iff v.id j,
  find_user-set_user id j u v us,
)

pub find_user-has_id :
    (id : String) (u : User) (us : List User) → find_user (has_id id) us ≡ some u → u.id ≡ id
unfolding find_user
find_user-has_id id u [] h = ground arith
find_user-has_id id u (w ∷ us) h = ground (arith, eq_iff w.id id, find_user-has_id id u us)

abbrev pub stamped : User → String → User
stamped v now = record v { updated_at = now }

-- The file after the account `id` became `v`.
abbrev pub rewritten : UsersFile → String → User → UsersFile
rewritten f id v = with_version (record f { users = set_user id v f.users })

-- An error with the store as it was, or the write of what `fn` makes of the first matching account.
abbrev pub Outcome : Store → String → String → (User → Result User) → Result User × Store → Type 0
Outcome s id now fn r =
    ((e : Error) × (r ≡ (err e, s)))
    ⊎ ((f : UsersFile) × (u : User) × (v : User) × (s ≡ holds f)
        × (find_user (has_id id) f.users ≡ some u)
        × (fn u ≡ ok v)
        × (r ≡ (ok (stamped v now), holds (rewritten f id (stamped v now)))))

Result-cases : (r : Result User) → ((e : Error) × (r ≡ err e)) ⊎ ((v : User) × (r ≡ ok v))
Result-cases (err e) = inl (e, refl)
Result-cases (ok v) = inr (v, refl)

wrote-Outcome :
    (io : Io) (f : UsersFile) (id now : String) (fn : User → Result User) (u v : User)
    → find_user (has_id id) f.users ≡ some u
    → fn u ≡ ok v
    → Outcome (holds f) id now fn (mutated io (holds f) id now f (ok v))
unfolding write_locked
wrote-Outcome io f id now fn u v found made = elim (Bool-cases io.can_write) [
  | inl w ↦ inr (f, u, v, refl, found, made, rw w)
  | inr w ↦ inl (disk write_failed, rw w)
]

holds-Outcome :
    (io : Io) (f : UsersFile) (id now : String) (fn : User → Result User)
    → Outcome (holds f) id now fn (mutate_in io (holds f) id now fn (ok f))
holds-Outcome io f id now fn = elim (Option-cases (find_user (has_id id) f.users)) [
  | inl gone ↦ inl (not_found, rw gone)
  | inr (u, found) ↦ elim (Result-cases (fn u)) [
    | inl (e, made) ↦ inl (e, rw (found, made))
    | inr (v, made) ↦ rw (found, made) (wrote-Outcome io f id now fn u v found made)
  ]
]

pub mutate-Outcome :
    (io : Io) (s : Store) (id now : String) (fn : User → Result User)
    → Outcome s id now fn (mutate io s id now fn)
unfolding mutate read_locked
mutate-Outcome io absent id now fn = elim (Bool-cases io.can_read) [
  | inl r ↦ inl (disk not_exist, rw r)
  | inr r ↦ inl (disk read_failed, rw r)
]
mutate-Outcome io corrupt id now fn = elim (Bool-cases io.can_read) [
  | inl r ↦ inl (disk bad_json, rw r)
  | inr r ↦ inl (disk read_failed, rw r)
]
mutate-Outcome io (holds f) id now fn = elim (Bool-cases io.can_read) [
  | inl r ↦ simp r (holds-Outcome io f id now fn)
  | inr r ↦ inl (disk read_failed, rw r)
]

-- What a read of the account `j` gives after an operation that ended with `r`.
abbrev pub seen : Result User → String → String → Result User → Result User
seen (ok v) id j before = if id == j then ok v else before
seen (err e) id j before = before

get-set_user :
    (io : Io) (f : UsersFile) (id j : String) (u v : User)
    → io.can_read ≡ true
    → find_user (has_id id) f.users ≡ some u
    → v.id ≡ id
    → get io (holds (rewritten f id v)) j ≡ seen (ok v) id j (get io (holds f) j)
unfolding get
get-set_user io f id j u v r found same =
    rw (r, find_user-set_user id j u v f.users found same) (ground arith)

-- The answer to a change of the account that a read gave: the error, or what was made of the account with
-- the time of the change in it, where the disk takes the write.
abbrev pub answered : Bool → String → Result User → Result User
answered can_write now (err e) = err e
answered can_write now (ok v) =
    if can_write then ok (record v { updated_at = now }) else err (disk write_failed)

holds-answered :
    (io : Io) (f : UsersFile) (id now : String) (fn : User → Result User) (r : Result User)
    → (mutated io (holds f) id now f r).0 ≡ answered io.can_write now r
unfolding write_locked
holds-answered io f id now fn (err e) = refl
holds-answered io f id now fn (ok v) = elim (Bool-cases io.can_write) [
  | inl w ↦ rw w refl
  | inr w ↦ rw w refl
]

mutate-answered :
    (io : Io) (s : Store) (id now : String) (fn : User → Result User)
    → (mutate io s id now fn).0 ≡ answered io.can_write now (get io s id >>= fn)
unfolding mutate get read_locked
mutate-answered io absent id now fn = elim (Bool-cases io.can_read) [
  | inl r ↦ rw r refl
  | inr r ↦ rw r refl
]
mutate-answered io corrupt id now fn = elim (Bool-cases io.can_read) [
  | inl r ↦ rw r refl
  | inr r ↦ rw r refl
]
mutate-answered io (holds f) id now fn = elim (Bool-cases io.can_read) [
  | inl r ↦
      simp r (holds-answered io f id now fn (or_not_found (find_user (has_id id) f.users) >>= fn))
  | inr r ↦ rw r refl
]

-- A `mutate` of the account `id`, by a function that leaves the ID alone. It answers what the function makes
-- of the account that a read of `id` gives, with the time as its update time, where the disk takes the write,
-- and otherwise the error of the read, of the function or of the write. Every later read that the disk serves
-- sees it: after a success a read of `id` gives that answer and every other read what it gave before; after
-- an error every read gives what it gave before.
pub get-mutate :
    (io io' : Io) (s : Store) (id j now : String) (fn : User → Result User)
    → KeepsId fn
    → io'.can_read ≡ true
    → ((mutate io s id now fn).0 ≡ answered io.can_write now (get io s id >>= fn))
      × (get io' (mutate io s id now fn).1 j ≡ seen (mutate io s id now fn).0 id j (get io' s j))
get-mutate io io' s id j now fn keeps r = (
  mutate-answered io s id now fn,
  elim (mutate-Outcome io s id now fn) [
    | inl (e, p) ↦ rw p
    | inr (f, u, v, held, found, made, p) ↦
        rw (p, held)
          (get-set_user io' f id j u (stamped v now) r found
            (keeps u v made ∙ find_user-has_id id u f.users found))
  ],
)

-- What is read by an ID has it.
found-has_id :
    (id : String) (us : List User) (o : Option User) (u : User)
    → find_user (has_id id) us ≡ o
    → or_not_found o ≡ ok u
    → u.id ≡ id
found-has_id id us none u found h = ground (arith, h)
found-has_id id us (some v) u found h =
    let same : v ≡ u = ground (arith, h) in rw (sym same) (find_user-has_id id v us found)

pub get-has_id : (io : Io) (s : Store) (id : String) (u : User) → get io s id ≡ ok u → u.id ≡ id
unfolding get
get-has_id io absent id u h = elim (Bool-cases io.can_read) [
  | inl e ↦ let off : err (disk not_exist) ≡ ok u = simp e at h in ground (arith, off)
  | inr e ↦ let off : err (disk read_failed) ≡ ok u = simp e at h in ground (arith, off)
]
get-has_id io corrupt id u h = elim (Bool-cases io.can_read) [
  | inl e ↦ let off : err (disk bad_json) ≡ ok u = simp e at h in ground (arith, off)
  | inr e ↦ let off : err (disk read_failed) ≡ ok u = simp e at h in ground (arith, off)
]
get-has_id io (holds f) id u h = elim (Bool-cases io.can_read) [
  | inl e ↦ found-has_id id f.users _ u refl (simp e at h)
  | inr e ↦ let off : err (disk read_failed) ≡ ok u = simp e at h in ground (arith, off)
]
