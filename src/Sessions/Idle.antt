-- ===== src/Sessions/Idle.antt =====
-- A session is good for a lifetime after its last use.
use llama_labels.Common.{
  ℕ, ◌+◌, ◌≤◌, ◌<◌, String, ◌≡◌, refl, Bool, true, false, Option, none, some, List, [], ◌∷◌, ◌==◌,
  arith, eq_iff, Bool-cases, inl, inr, ltb,
}
use llama_labels.Common.Dict.{Dict, lookup, insert, remove, lookup-insert, lookup-remove, IsMap}
use llama_labels.Disk.{Io}
use llama_labels.Users as Users
use llama_labels.Accounts.{Session, revoke_user_sessions}
use llama_labels.Login.{session_lifetime}
use llama_labels.Sessions.{owner_checked, session_checked, current_user, handle_logout}
use llama_labels.Sessions.Uses.{Use, asks, logs_out, starts, revokes, step, run}
use llama_labels.Sessions.Revoked.{revoke-Lacks}
use llama_labels.Sessions.Maps.{step-IsMap}

module _ (token : String) where
  -- The use is a request with the token, or starts a session with it.
  abbrev pub touches : Use → Bool
  touches (asks io users (some k)) = k == token
  touches (starts k user_id csrf_token) = k == token
  touches u = false

  -- No use after `last` touches the token.
  abbrev pub IsIdle : ℕ → List (ℕ × Use) → Type 0
  IsIdle last [] = Unit
  IsIdle last ((now, u) ∷ us) = (touches u ≡ true → now ≤ last) × IsIdle last us

  -- The session runs out at most a lifetime after `last`.
  abbrev pub EndsBy : ℕ → Dict Session → Type 0
  EndsBy last s =
      (sess : Session) → lookup token s ≡ some sess → sess.expires_at ≤ last + session_lifetime

  ends-remove :
      (last : ℕ) (k : String) (s : Dict Session) → EndsBy last s → EndsBy last (remove k s)
  ends-remove last k s h sess e = ground (arith, rw (lookup-remove k token s) at e, h sess)

  ends-insert :
      (last : ℕ) (k : String) (v : Session) (s : Dict Session)
      → ((k == token) ≡ true → v.expires_at ≤ last + session_lifetime)
      → EndsBy last s
      → EndsBy last (insert k v s)
  ends-insert last k v s early h sess e = elim (Bool-cases (k == token)) [
    | inl same ↦
        let is : some v ≡ some sess = simp same at (rw (lookup-insert k token v s) at e) in
        ground (arith, is, early same)
    | inr off ↦ h sess (simp off at (rw (lookup-insert k token v s) at e))
  ]

  ends-owner_checked :
      (last : ℕ) (k : String) (s : Dict Session) (r : Users.Result Users.User)
      → EndsBy last s
      → EndsBy last (owner_checked k s r).1
  ends-owner_checked last k s (Users.err e) h = ends-remove last k s h
  ends-owner_checked last k s (Users.ok u) h = elim (Bool-cases u.active) [
    | inl a ↦ simp a h
    | inr a ↦ simp a (ends-remove last k s h)
  ]

  ends-session_checked :
      (last : ℕ) (io : Io) (now : ℕ) (users : Users.Store) (k : String) (s : Dict Session)
      (o : Option Session)
      → ((k == token) ≡ true → now ≤ last)
      → EndsBy last s
      → EndsBy last (session_checked io now users k s o).1
  ends-session_checked last io now users k s none idle h = h
  ends-session_checked last io now users k s (some sess) idle h =
      elim (Bool-cases (ltb sess.expires_at now)) [
        | inl late ↦ simp late (ends-remove last k s h)
        | inr early ↦ simp early (
            ends-owner_checked last k _ _
              (ends-insert last k _ s (λ same. omega (arith, idle same)) h))
      ]

  kept-revoke :
      (user_id keep : String) (s : Dict Session) (sess : Session)
      → IsMap s
      → lookup token (revoke_user_sessions user_id keep s) ≡ some sess
      → lookup token s ≡ some sess
  unfolding revoke_user_sessions lookup
  kept-revoke user_id keep [] sess w e = e
  kept-revoke user_id keep ((k, v) ∷ s) sess w e = ground (
    arith,
    e,
    w,
    eq_iff k token,
    kept-revoke user_id keep s sess,
    revoke-Lacks token user_id keep s,
  )

  ends-step :
      (last : ℕ) (s : Dict Session) (now : ℕ) (u : Use)
      → IsMap s
      → (touches u ≡ true → now ≤ last)
      → EndsBy last s
      → EndsBy last (step s (now, u))
  unfolding step current_user handle_logout
  ends-step last s now (asks io users none) w idle h = h
  ends-step last s now (asks io users (some k)) w idle h =
      ends-session_checked last io now users k s (lookup k s) idle h
  ends-step last s now (logs_out none) w idle h = h
  ends-step last s now (logs_out (some k)) w idle h = ends-remove last k s h
  ends-step last s now (starts k user_id c) w idle h =
      ends-insert last k _ s (λ same. omega (arith, idle same)) h
  ends-step last s now (revokes user_id keep) w idle h =
      λ sess e. h sess (kept-revoke user_id keep s sess w e)

  ends-run :
      (last : ℕ) (us : List (ℕ × Use)) (s : Dict Session)
      → IsMap s
      → IsIdle last us
      → EndsBy last s
      → EndsBy last (run s us)
  unfolding run
  ends-run last [] s w idle h = h
  ends-run last ((now, u) ∷ us) s w idle h =
      ends-run last us (step s (now, u)) (step-IsMap s (now, u) w) idle.1
        (ends-step last s now u w idle.0 h)

  expired-refused :
      (io : Io) (now last : ℕ) (users : Users.Store) (s : Dict Session) (o : Option Session)
      → lookup token s ≡ o
      → EndsBy last s
      → last + session_lifetime < now
      → (session_checked io now users token s o).0 ≡ none
  expired-refused io now last users s none e h late = refl
  expired-refused io now last users s (some sess) e h late = ground (arith, h sess e, late)

  -- In a session map in which no token stands twice: a session that runs out at most a lifetime after `last`,
  -- and that neither a request nor a new session with its token touches after `last`, lets nobody in once a
  -- lifetime has passed since: whatever uses of the sessions there are in between, and whatever the accounts
  -- are.
  pub idle-expires :
      (last : ℕ) (s : Dict Session) (us : List (ℕ × Use)) (io : Io) (now : ℕ) (users : Users.Store)
      → IsMap s
      → EndsBy last s
      → IsIdle last us
      → last + session_lifetime < now
      → (current_user io now users (some token) (run s us)).0 ≡ none
  unfolding current_user
  idle-expires last s us io now users w h idle late =
      expired-refused io now last users (run s us) _ refl (ends-run last us s w idle h) late
