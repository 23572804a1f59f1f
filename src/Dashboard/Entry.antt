-- ===== src/Dashboard/Entry.antt =====
-- packages/dashboard/src/app/page.tsx over packages/core/src/auth/authRoutes.ts: which view the page
-- opens with, and the way from the login form to the dashboard.
use queueway.Base.{
  arith, le→ltb, [], ◌∷◌, ◌++◌, eq_refl, ◌∙◌, Bool-cases, is_some, inr, inl, ◌*◌, Option-cases, ◌≡◌,
  refl, Bool, true, false, String, Option, none, some, Result, ok, err, ltb, length, if◌then◌else◌,
}
use queueway.Store.Table.{find-append, find}
use queueway.Auth.Accounts.{
  Token, has_expired, day, new_token, AuthStore, AuthUser, by_id, by_email, by_token,
  find_session_user, find_user_by_id, has_any_user,
}
use queueway.Auth.Credentials.{present}
use queueway.Auth.Routes.{
  has_account, succeed, describe, Request, Library, Fresh, require_auth, me, account_status, login,
  session_user,
}
use queueway.Dashboard.{arrives}
use queueway.Dashboard.Views.{Page, View, check_auth, check_status}
use queueway.Dashboard.Forms.{Form, login_submit, handle_submit, begin_submit, end_submit}
use queueway.Auth.Sessions.{login_lem}

-- `checkAuth` over the server's answers to a browser that sends the cookie of the request.
unfoldable pub enter : Request → AuthStore → Page → Page
enter req s p = check_auth (arrives (me req s).0) (arrives (account_status s).0) p

abbrev view_for : Result Bool → Bool → View
view_for (ok true) has_users = View.dashboard
view_for (ok false) has_users = if has_users then View.login else View.signup
view_for (err e) has_users = View.login

session_user_lem :
    (cookie : Option String) (s : AuthStore)
    → s.online ≡ true
    → (u : Option AuthUser) × (session_user cookie s ≡ (ok u, s))
unfolding find_session_user find_user_by_id
session_user_lem none s o = (none, refl)
session_user_lem (some token) s o = rw o (elim (Option-cases (find by_token token s.sessions)) [
  | inl e ↦ rw e (none, refl)
  | inr (t, e) ↦ rw e (elim (Bool-cases (has_expired s.now t)) [
    | inl h ↦ rw h (none, refl)
    | inr h ↦ rw h (find by_id t.user_id s.users, refl)
  ])
])

session_found :
    (token : String) (t : Token) (user : AuthUser) (s : AuthStore)
    → s.online ≡ true
    → find by_token token s.sessions ≡ some t
    → has_expired s.now t ≡ false
    → find by_id t.user_id s.users ≡ some user
    → session_user (some token) s ≡ (ok (some user), s)
unfolding find_session_user find_user_by_id
session_found token t user s o f h i = rw (o, f, h, i) refl

admitted :
    (u : Option AuthUser) (has_users : Bool) (p : Page)
    → (check_auth
        (arrives (ok (describe u)))
        (arrives (ok (succeed (has_account has_users))))
        p).view
      ≡ view_for (ok (is_some u)) has_users
unfolding check_auth check_status
admitted none has_users p = refl
admitted (some user) has_users p = refl

-- On a reachable login storage the page opens with the dashboard exactly if the guard of the API
-- admits the browser, otherwise with the login form if there is an account, else with the signup
-- form.
pub enter_lem :
    (req : Request) (s : AuthStore) (p : Page)
    → s.online ≡ true
    → (enter req s p).view ≡ view_for (require_auth req s).0 (ltb 0 (length s.users))
unfolding enter me require_auth account_status has_any_user check_auth check_status
enter_lem req s p o =
    let (u, e) = session_user_lem (present req.cookie) s o in
    rw (e, o) (admitted u (ltb 0 (length s.users)) p)

-- On a reachable login storage that has the user under the address and under the id, a login with
-- the right password and a fresh session token ends without an error, and the page of a browser that
-- sends that token then opens with the dashboard of that user.
pub login_opens_dashboard :
    (lib : Library) (fresh : Fresh) (req next : Request) (email password : String) (user : AuthUser)
    (s : AuthStore) (f : Form) (p : Page)
    → present req.email ≡ some email
    → present req.password ≡ some password
    → s.online ≡ true
    → find by_email (lib.normalize email) s.users ≡ some user
    → find by_id user.id s.users ≡ some user
    → lib.compare password user.password_hash ≡ true
    → find by_token fresh.token s.sessions ≡ none
    → present next.cookie ≡ some fresh.token
    → let (answer, s') = login lib fresh req s in
      (login_submit (arrives answer) f ≡ (true, record f { error = none; loading = false }))
      × (enter next s' p ≡ record p { view = View.dashboard; user_email = some user.email })
unfolding handle_submit begin_submit end_submit enter me check_auth find_session_user
    find_user_by_id
login_opens_dashboard lib fresh req next email password user s f p e w o u i c n k =
    let t = new_token fresh.token user.id s.now (30 * day) in
    let s' : AuthStore = record s { sessions = s.sessions ++ t ∷ [] } in
    let opened : find by_token fresh.token s'.sessions ≡ some t =
      find-append by_token t fresh.token s.sessions n ∙ rw (eq_refl fresh.token) refl in
    rw (login_lem lib fresh req email password user s e w o u c n)
      (refl, rw (k, session_found fresh.token t user s' o opened (le→ltb _ _ (omega arith)) i) refl)
