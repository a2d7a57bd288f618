-- ===== src/Accounts/Admins.antt =====
-- Active administrators among the accounts, and what the changes of the store do to them.
use llama_labels.Common.{
  String, ◌≡◌, refl, Bool, true, false, ◌&&◌, ◌||◌, Option, none, some, List, [], ◌∷◌, ◌++◌, arith,
  if◌then◌else◌, ◌==◌, inl, inr, Bool-cases,
}
use llama_labels.Disk.{absent, corrupt, holds, Io}
use llama_labels.Users.{
  Role, User, Store, UsersFile, Result, ok, find_user, has_id, set_user, mutate, is_active_admin,
  create, wrote, new_user, read_locked, write_locked,
}
use llama_labels.Users.Mutation.{mutate-Outcome, stamped}
use llama_labels.Accounts.Handlers.{admins_beside, is_last}

abbrev pub any_admin : List User → Bool
any_admin [] = false
any_admin (u ∷ us) = is_active_admin u || any_admin us

-- An active admin with another ID.
abbrev pub any_beside : String → List User → Bool
any_beside id [] = false
any_beside id (u ∷ us) =
    (is_active_admin u && (if u.id == id then false else true)) || any_beside id us

-- The accounts can be read and one of them is an active admin.
abbrev pub HasAdmin : Store → Type 0
HasAdmin absent = ⊥
HasAdmin corrupt = ⊥
HasAdmin (holds f) = any_admin f.users ≡ true

beside-none :
    (id : String) (us : List User)
    → any_beside id us ≡ false
    → ((admins_beside id us).1 ≡ 0) × ((admins_beside id us).0 ≡ any_admin us)
beside-none id [] h = (refl, refl)
beside-none id (u ∷ us) h = ground (arith, beside-none id us)

pub unblocked-beside :
    (id : String) (us : List User)
    → any_admin us ≡ true
    → is_last (admins_beside id us) ≡ false
    → any_beside id us ≡ true
unblocked-beside id us some_admin unblocked = elim (Bool-cases (any_beside id us)) [
  | inl e ↦ e
  | inr e ↦ ground (arith, beside-none id us e)
]

any_admin-beside : (id : String) (us : List User) → any_beside id us ≡ true → any_admin us ≡ true
any_admin-beside id [] h = h
any_admin-beside id (u ∷ us) h = ground (arith, any_admin-beside id us)

any_admin-set_beside :
    (id : String) (v : User) (us : List User)
    → any_beside id us ≡ true
    → any_admin (set_user id v us) ≡ true
unfolding set_user
any_admin-set_beside id v [] h = ground arith
any_admin-set_beside id v (u ∷ us) h =
    ground (arith, any_admin-set_beside id v us, any_admin-beside id us)

any_admin-set_user :
    (id : String) (u v : User) (us : List User)
    → find_user (has_id id) us ≡ some u
    → (is_active_admin u ≡ true → is_active_admin v ≡ true)
    → any_admin us ≡ true
    → any_admin (set_user id v us) ≡ true
unfolding set_user find_user
any_admin-set_user id u v [] found keeps h = ground arith
any_admin-set_user id u v (w ∷ us) found keeps h = ground (arith, any_admin-set_user id u v us)

any_admin-append :
    (v : User) (us : List User) → any_admin us ≡ true → any_admin (us ++ v ∷ []) ≡ true
any_admin-append v [] h = ground arith
any_admin-append v (u ∷ us) h = ground (arith, any_admin-append v us)

pub HasAdmin-mutate :
    (io : Io) (s : Store) (id now : String) (fn : User → Result User)
    → ((u v : User) → fn u ≡ ok v → is_active_admin u ≡ true → is_active_admin v ≡ true)
    → HasAdmin s
    → HasAdmin (mutate io s id now fn).1
HasAdmin-mutate io s id now fn keeps h = elim (mutate-Outcome io s id now fn) [
  | inl (e, p) ↦ rw p h
  | inr (f, u, v, held, found, made, p) ↦
      rw p (any_admin-set_user id u (stamped v now) f.users found (keeps u v made) (rw held at h))
]

pub same_file :
    {s : Store} (f f' : UsersFile) (id : String)
    → s ≡ holds f
    → s ≡ holds f'
    → any_beside id f.users ≡ true
    → any_beside id f'.users ≡ true
same_file f f' id held held' beside = cc

pub HasAdmin-mutate_beside :
    (io : Io) (s : Store) (f : UsersFile) (id now : String) (fn : User → Result User)
    → s ≡ holds f
    → any_beside id f.users ≡ true
    → HasAdmin (mutate io s id now fn).1
HasAdmin-mutate_beside io s f id now fn held beside = elim (mutate-Outcome io s id now fn) [
  | inl (e, p) ↦ rw (p, held) (any_admin-beside id f.users beside)
  | inr (f', u, v, held', found, made, p) ↦
      rw p (any_admin-set_beside id (stamped v now) f'.users (same_file f f' id held held' beside))
]

HasAdmin-wrote :
    (io : Io) (f : UsersFile) (v : User)
    → any_admin f.users ≡ true
    → HasAdmin (wrote io (record f { users = f.users ++ v ∷ [] }) (holds f) v).1
unfolding write_locked
HasAdmin-wrote io f v h = elim (Bool-cases io.can_write) [
  | inl w ↦ rw w (any_admin-append v f.users h)
  | inr w ↦ rw w h
]

pub HasAdmin-create :
    (io : Io) (s : Store) (username : String) (hash id : Option String) (role : Role) (now : String)
    → HasAdmin s
    → HasAdmin (create io s username hash id role now).1
unfolding create read_locked
HasAdmin-create io absent username hash id role now h = absurd h
HasAdmin-create io corrupt username hash id role now h = absurd h
HasAdmin-create io (holds f) username none id role now h = ground arith
HasAdmin-create io (holds f) username (some hash) none role now h = ground arith
HasAdmin-create io (holds f) username (some hash) (some id) role now h =
    ground (arith, HasAdmin-wrote io f (new_user id username hash role now) h)
