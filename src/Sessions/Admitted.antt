-- ===== src/Sessions/Admitted.antt =====
-- Whom withAdmin lets through.
use llama_labels.Common.{
  ℕ, ◌+◌, ◌≤◌, String, ◌≡◌, refl, true, false, not, ◌&&◌, Option, none, some, arith, eq_iff,
  eq_refl, Bool-cases, inl, inr, ltb,
}
use llama_labels.Common.Dict.{Dict, lookup, insert, lookup-insert}
use llama_labels.Disk.{Io}
use llama_labels.Users.{User, is_admin}
use llama_labels.Users as Users
use llama_labels.Accounts.{Session}
use llama_labels.Login.{session_lifetime}
use llama_labels.Sessions as Sessions
use llama_labels.Sessions.{
  AuthContext, owner_checked, session_checked, current_user, csrf_check_ok, Gate, passes, Request,
  user_checked, with_auth, admin_checked, with_admin, is_exempt,
}

-- The context is that of an active account.
abbrev pub IsOf : User → AuthContext → Type 0
IsOf u ac =
    (u.active ≡ true)
    × ((u.id ≡ ac.user_id)
        × ((u.role ≡ ac.role) × (u.must_change_password ≡ ac.must_change_password)))

owner-IsOf :
    (k : String) (s : Dict Session) (r : Users.Result User) (ac : AuthContext)
    → (owner_checked k s r).0 ≡ some ac
    → (u : User) × ((r ≡ Users.ok u) × (IsOf u ac × ((owner_checked k s r).1 ≡ s)))
owner-IsOf k s (Users.err e) ac h = ground (arith, h)
owner-IsOf k s (Users.ok u) ac h = elim (Bool-cases u.active) [
  | inl a ↦
      let is = simp a at h in
      (
        u,
        (refl, ((a, (ground (arith, is), (ground (arith, is), ground (arith, is)))), simp a refl)),
      )
  | inr a ↦ ground (arith, simp a at h)
]

-- The token is that of a session that has not run out, of the account `u`.
abbrev pub IsLive : Io → ℕ → Users.Store → Dict Session → String → Session → User → Type 0
IsLive io now users s token sess u =
    (lookup token s ≡ some sess)
    × ((now ≤ sess.expires_at) × (Users.get io users sess.user_id ≡ Users.ok u))

-- What is left of a session after the request.
abbrev renewed : ℕ → String → Session → Dict Session → Dict Session
renewed now token sess s = insert token (record sess { expires_at = now + session_lifetime }) s

session-IsLive :
    (io : Io) (now : ℕ) (users : Users.Store) (token : String) (s : Dict Session)
    (o : Option Session) (ac : AuthContext)
    → lookup token s ≡ o
    → (session_checked io now users token s o).0 ≡ some ac
    → (sess : Session) × ((u : User) × (IsLive io now users s token sess u
          × (IsOf u ac × ((session_checked io now users token s o).1 ≡ renewed now token sess s))))
session-IsLive io now users token s none ac there h = ground (arith, h)
session-IsLive io now users token s (some sess) ac there h =
    elim (Bool-cases (ltb sess.expires_at now)) [
      | inl late ↦ ground (arith, simp late at h)
      | inr early ↦
          let (u, (found, (is, same))) =
            owner-IsOf token (renewed now token sess s) _ ac (simp early at h) in
          (sess, (u, ((there, (ground (arith, early), found)), (is, simp early same))))
    ]

checked-passes :
    (r : Request) (p : Option AuthContext × Dict Session) (ac : AuthContext)
    → (user_checked r p).0 ≡ passes ac
    → (p.0 ≡ some ac)
      × ((csrf_check_ok r.safe r.cookie r.csrf_header p.1 ≡ true)
          × ((ac.must_change_password && not (is_exempt r.path)) ≡ false))
checked-passes r (none, s) ac h = ground (arith, h)
checked-passes r (some a, s) ac h =
    elim (Bool-cases (csrf_check_ok r.safe r.cookie r.csrf_header s)) [
      | inl c ↦ elim (Bool-cases (a.must_change_password && not (is_exempt r.path))) [
        | inl m ↦ ground (arith, simp (c, m) at h)
        | inr m ↦
            let is : passes a ≡ passes ac = simp (c, m) at h in
            let same : a ≡ ac = ground (arith, is) in (rw same refl, (c, rw same at m))
      ]
      | inr c ↦ ground (arith, simp c at h)
    ]

admin-passes :
    (p : Gate × Dict Session) (ac : AuthContext)
    → (admin_checked p).0 ≡ passes ac
    → (p.0 ≡ passes ac) × (is_admin ac.role ≡ true)
admin-passes (passes a, s) ac h = elim (Bool-cases (is_admin a.role)) [
  | inl e ↦
      let is : passes a ≡ passes ac = simp e at h in
      let same : a ≡ ac = ground (arith, is) in (is, rw same at e)
  | inr e ↦ ground (arith, simp e at h)
]
admin-passes (Sessions.unauthorized, s) ac h = ground (arith, h)
admin-passes (Sessions.csrf_refused, s) ac h = ground (arith, h)
admin-passes (Sessions.password_change_required, s) ac h = ground (arith, h)
admin-passes (Sessions.forbidden, s) ac h = ground (arith, h)

-- The header of a request that is not safe is the session's CSRF token.
abbrev pub HasCsrfToken : Request → Session → Type 0
HasCsrfToken r sess = r.safe ≡ false → r.csrf_header ≡ sess.csrf_token

renewed-HasCsrfToken :
    (r : Request) (now : ℕ) (token : String) (sess : Session) (s : Dict Session)
    → csrf_check_ok r.safe (some token) r.csrf_header (renewed now token sess s) ≡ true
    → HasCsrfToken r sess
unfolding csrf_check_ok
renewed-HasCsrfToken r now token sess s h unsafe =
    let kept = lookup-insert token token (record sess { expires_at = now + session_lifetime }) s in
    ground (arith, rw (unsafe, kept, eq_refl token) at h, eq_iff r.csrf_header sess.csrf_token)

-- What a request is that has its handler run.
abbrev pub IsAdmitted : Io → ℕ → Users.Store → Request → Dict Session → Type 0
IsAdmitted io now users r s =
    (token : String) × ((sess : Session) × ((u : User) × ((r.cookie ≡ some token)
          × (IsLive io now users s token sess u
              × ((u.active ≡ true)
                  × ((is_admin u.role ≡ true)
                      × (HasCsrfToken r sess
                          × ((u.must_change_password && not (is_exempt r.path)) ≡ false))))))))

user-IsAdmitted :
    (io : Io) (now : ℕ) (users : Users.Store) (r : Request) (s : Dict Session) (ac : AuthContext)
    (cookie : Option String)
    → r.cookie ≡ cookie
    → (current_user io now users cookie s).0 ≡ some ac
    → csrf_check_ok r.safe cookie r.csrf_header (current_user io now users cookie s).1 ≡ true
    → (ac.must_change_password && not (is_exempt r.path)) ≡ false
    → is_admin ac.role ≡ true
    → IsAdmitted io now users r s
unfolding current_user
user-IsAdmitted io now users r s ac none has h csrf owed role = ground (arith, h)
user-IsAdmitted io now users r s ac (some token) has h csrf owed role =
    let (sess, (u, (live, (is, left)))) = session-IsLive io now users token s _ ac refl h in
    (
      token,
      (
        sess,
        (
          u,
          (
            has,
            (
              live,
              (
                is.0,
                (
                  rw is.1.1.0 role,
                  (renewed-HasCsrfToken r now token sess s (rw left at csrf), rw is.1.1.1 owed),
                ),
              ),
            ),
          ),
        ),
      ),
    )

-- A request that withAdmin lets through: its cookie is that of a session that has not run out, the account of
-- the session, as the accounts are now, is active and an admin, a request that is not safe has the session's
-- CSRF token as its header, and no change of the password is owed, unless the path is exempt.
pub passes-IsAdmitted :
    (io : Io) (now : ℕ) (users : Users.Store) (r : Request) (s : Dict Session) (ac : AuthContext)
    → (with_admin io now users r s).0 ≡ passes ac
    → IsAdmitted io now users r s
unfolding with_admin with_auth
passes-IsAdmitted io now users r s ac h =
    let (let_in, role) = admin-passes (with_auth io now users r s) ac h in
    let (known, (csrf, owed)) = checked-passes r (current_user io now users r.cookie s) ac let_in in
    user-IsAdmitted io now users r s ac r.cookie refl known csrf owed role
