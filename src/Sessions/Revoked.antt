-- ===== src/Sessions/Revoked.antt =====
-- What a change of the password does to the sessions of the account.
use llama_labels.Common.{
  ℕ, String, ◌≡◌, ◌≢◌, refl, sym, ◌∙◌, Option, none, some, List, [], ◌∷◌, ◌==◌, arith, eq_iff,
  Bool-cases, inl, inr, ltb,
}
use llama_labels.Common.Text.{trim_space}
use llama_labels.Common.Dict.{Dict, IsMap, lookup, insert, remove, lookup-insert, lookup-remove}
use llama_labels.Disk.{Io}
use llama_labels.Users.{User}
use llama_labels.Users as Users
use llama_labels.Users.Mutation.{get-has_id}
use llama_labels.Accounts.{Session, revoke_user_sessions}
use llama_labels.Sessions.{
  AuthContext, owner_checked, session_checked, current_user, handle_logout, done, Env,
  current_session_token, password_set, is_refused, changing_password, handle_change_password,
}
use llama_labels.Sessions.Uses.{Use, asks, logs_out, starts, revokes, step, run}

-- No use starts a session with the token.
abbrev pub Unstarted : String → List (ℕ × Use) → Type 0
Unstarted token [] = Unit
Unstarted token ((now, starts other user_id csrf_token) ∷ us) = (other ≢ token) × Unstarted token us
Unstarted token (u ∷ us) = Unstarted token us

module _ (token : String) where
  -- The sessions have none with the token.
  abbrev pub Lacks : Dict Session → Type 0
  Lacks s = lookup token s ≡ none

  remove-Lacks : (k : String) (s : Dict Session) → Lacks s → Lacks (remove k s)
  remove-Lacks k s h = ground (arith, lookup-remove k token s, h)

  insert-Lacks :
      (k : String) (v : Session) (s : Dict Session) → k ≢ token → Lacks s → Lacks (insert k v s)
  insert-Lacks k v s off h = ground (arith, lookup-insert k token v s, h, eq_iff k token)

  owner_checked-Lacks :
      (k : String) (s : Dict Session) (r : Users.Result User)
      → Lacks s
      → Lacks (owner_checked k s r).1
  owner_checked-Lacks k s (Users.err e) h = remove-Lacks k s h
  owner_checked-Lacks k s (Users.ok u) h = elim (Bool-cases u.active) [
    | inl a ↦ simp a h
    | inr a ↦ simp a (remove-Lacks k s h)
  ]

  session_checked-Lacks :
      (io : Io) (now : ℕ) (users : Users.Store) (k : String) (s : Dict Session) (o : Option Session)
      → lookup k s ≡ o
      → Lacks s
      → Lacks (session_checked io now users k s o).1
  session_checked-Lacks io now users k s none e h = h
  session_checked-Lacks io now users k s (some sess) e h =
      elim (Bool-cases (ltb sess.expires_at now)) [
        | inl late ↦ simp late (remove-Lacks k s h)
        | inr early ↦
            let off : k ≢ token = λ same. absurd (ground (arith, rw same at e, h)) in
            simp early (owner_checked-Lacks k _ _ (insert-Lacks k _ s off h))
      ]

  pub revoke-Lacks :
      (user_id keep : String) (s : Dict Session)
      → Lacks s
      → Lacks (revoke_user_sessions user_id keep s)
  unfolding revoke_user_sessions lookup
  revoke-Lacks user_id keep [] h = refl
  revoke-Lacks user_id keep ((k, sess) ∷ s) h = ground (arith, revoke-Lacks user_id keep s, h)

  step-Lacks :
      (s : Dict Session) (u : ℕ × Use) → Unstarted token (u ∷ []) → Lacks s → Lacks (step s u)
  unfolding step current_user handle_logout
  step-Lacks s (now, asks io users none) a h = h
  step-Lacks s (now, asks io users (some k)) a h =
      session_checked-Lacks io now users k s (lookup k s) refl h
  step-Lacks s (now, logs_out none) a h = h
  step-Lacks s (now, logs_out (some k)) a h = remove-Lacks k s h
  step-Lacks s (now, starts k user_id csrf_token) a h = insert-Lacks k _ s a.0 h
  step-Lacks s (now, revokes user_id keep) a h = revoke-Lacks user_id keep s h

  run-Lacks :
      (s : Dict Session) (us : List (ℕ × Use)) → Unstarted token us → Lacks s → Lacks (run s us)
  unfolding run
  run-Lacks s [] a h = h
  run-Lacks s ((now, asks io users k) ∷ us) a h =
      let u : ℕ × Use = (now, asks io users k) in run-Lacks (step s u) us a (step-Lacks s u tt h)
  run-Lacks s ((now, logs_out k) ∷ us) a h =
      let u : ℕ × Use = (now, logs_out k) in run-Lacks (step s u) us a (step-Lacks s u tt h)
  run-Lacks s ((now, starts k user_id c) ∷ us) a h =
      let u : ℕ × Use = (now, starts k user_id c) in
      run-Lacks (step s u) us a.1 (step-Lacks s u (a.0, tt) h)
  run-Lacks s ((now, revokes user_id k) ∷ us) a h =
      let u : ℕ × Use = (now, revokes user_id k) in run-Lacks (step s u) us a (step-Lacks s u tt h)

  revoked-Lacks :
      (user_id keep : String) (s : Dict Session) (sess : Session)
      → IsMap s
      → lookup token s ≡ some sess
      → sess.user_id ≡ user_id
      → token ≢ keep
      → Lacks (revoke_user_sessions user_id keep s)
  unfolding revoke_user_sessions lookup
  revoked-Lacks user_id keep [] sess w e same off = ground (arith, e)
  revoked-Lacks user_id keep ((k, v) ∷ s) sess w e same off = ground (
    arith,
    e,
    w,
    same,
    eq_iff k token,
    eq_iff token keep,
    eq_iff v.user_id user_id,
    revoked-Lacks user_id keep s sess,
    revoke-Lacks user_id keep s,
  )

  Lacks-unknown :
      (io : Io) (now : ℕ) (users : Users.Store) (s : Dict Session)
      → Lacks s
      → (current_user io now users (some token) s).0 ≡ none
  unfolding current_user
  Lacks-unknown io now users s h = rw h refl

  set-revoked :
      (cookie : Option String) (u : User) (s : Dict Session) (sess : Session)
      (p : Users.Result User × Users.Store)
      → IsMap s
      → lookup token s ≡ some sess
      → sess.user_id ≡ u.id
      → token ≢ current_session_token cookie
      → (password_set cookie u s p).0 ≡ done
      → Lacks (password_set cookie u s p).1.1
  set-revoked cookie u s sess (Users.err e, us) w there same off h = ground (arith, h)
  set-revoked cookie u s sess (Users.ok v, us) w there same off h =
      revoked-Lacks u.id (current_session_token cookie) s sess w there same off

  changing-revoked :
      (env : Env) (cookie : Option String) (user_id old new : String) (us : Users.Store)
      (s : Dict Session) (sess : Session) (r : Users.Result User)
      → IsMap s
      → lookup token s ≡ some sess
      → sess.user_id ≡ user_id
      → token ≢ current_session_token cookie
      → ((u : User) → r ≡ Users.ok u → u.id ≡ user_id)
      → (changing_password env cookie old new us s r).0 ≡ done
      → Lacks (changing_password env cookie old new us s r).1.1
  changing-revoked env cookie user_id old new us s sess (Users.err e) w there same off named h =
      ground (arith, h)
  changing-revoked env cookie user_id old new us s sess (Users.ok u) w there same off named h =
      elim (Bool-cases (is_refused env u old)) [
        | inl e ↦ ground (arith, simp e at h)
        | inr e ↦
            simp e
              (set-revoked cookie u s sess _ w there (same ∙ sym (named u refl)) off (simp e at h))
      ]

-- After a user has changed the password, where no token stands twice in the session map, a session of that
-- user under another token than the request's own lets nobody in: not after any uses of the sessions,
-- whatever the accounts are then, unless a new session has drawn its token.
pub password-change-revokes :
    (env : Env) (cookie : Option String) (ac : AuthContext) (old new token : String)
    (us : Users.Store) (sessions : Dict Session) (sess : Session) (uses : List (ℕ × Use)) (io : Io)
    (now : ℕ) (users : Users.Store)
    → IsMap sessions
    → lookup token sessions ≡ some sess
    → sess.user_id ≡ ac.user_id
    → token ≢ current_session_token cookie
    → (handle_change_password env cookie ac (some (old, new)) us sessions).0 ≡ done
    → Unstarted token uses
    → (current_user io now users
        (some token)
        (run (handle_change_password env cookie ac (some (old, new)) us sessions).1.1 uses)).0
      ≡ none
unfolding handle_change_password
password-change-revokes env cookie ac old new token us sessions sess uses io now users w there same
      off h a =
    elim (Bool-cases (trim_space new == "")) [
      | inl e ↦ ground (arith, simp e at h)
      | inr e ↦ simp e (
          Lacks-unknown token io now users _ (
            run-Lacks token _ uses a (
              changing-revoked token env cookie ac.user_id old new us sessions sess _ w there same
                off (get-has_id env.read_io us ac.user_id) (simp e at h))))
    ]
