-- ===== src/Auth/Signup.antt =====
-- authRoutes.ts: opening the account, alone and in a race.
use queueway.Store.Table.{find, find-append}
use queueway.Base.{
  arith, eq_refl, lt→ltb, ◌<◌, ap, le→ltb, ◌≤◌, ◌∙◌, length, some, ok, false, ◌*◌, ◌==◌, none, [],
  ◌∷◌, true, ◌++◌, ◌≡◌, ℕ, String, refl,
}
use queueway.Auth.Accounts.{
  day, by_email, by_token, new_token, by_id, AuthUser, AuthStore, create_session, create_user,
  has_any_user,
}
use queueway.Auth.Routes.{
  refuse, login, Request, signup_valid, signup, welcome, Reply, logged_in, Fresh, open_account,
  Library,
}
use queueway.Auth.Credentials.{utf16_length, is_valid_email, present}
use queueway.Auth.Sessions.{login_lem}

abbrev user_of : Library → Fresh → String → String → ℕ → AuthUser
user_of lib fresh email password now = record {
  id = fresh.id;
  email = lib.normalize email;
  password_hash = lib.hash fresh.salt password;
  created_at = now;
}

abbrev opened : Library → Fresh → String → String → AuthStore → AuthStore
opened lib fresh email password s = record s {
  users = s.users ++ user_of lib fresh email password s.now ∷ [];
  sessions = s.sessions ++ new_token fresh.token fresh.id s.now (30 * day) ∷ [];
}

open_account_lem :
    (lib : Library) (fresh : Fresh) (email password : String) (s : AuthStore)
    → s.online ≡ true
    → find by_id fresh.id s.users ≡ none
    → find by_email (lib.normalize email) s.users ≡ none
    → find by_token fresh.token s.sessions ≡ none
    → open_account lib fresh email password s ≡ (
      ok (logged_in fresh.token (lib.normalize email) (some (welcome (lib.normalize email)))),
      opened lib fresh email password s,
    )
unfolding open_account create_user create_session
open_account_lem lib fresh email password s o i e t = rw (o, i, e, t) refl

-- Two signups with different emails, ids and tokens that both get past the test for an account,
-- before either one has hashed its password, both succeed and leave two accounts.
pub racing_signups :
    (lib : Library) (a b : Fresh) (email email' password password' : String) (s : AuthStore)
    → s.online ≡ true
    → s.users ≡ []
    → find by_token a.token s.sessions ≡ none
    → find by_token b.token s.sessions ≡ none
    → (a.id == b.id) ≡ false
    → (a.token == b.token) ≡ false
    → (lib.normalize email == lib.normalize email') ≡ false
    → let first = open_account lib a email password s in
      let second = open_account lib b email' password' first.1 in
      ((has_any_user s).0 ≡ ok false)
      × ((r : Reply) × (first.0 ≡ ok r) × (r.status ≡ 200))
      × ((r : Reply) × (second.0 ≡ ok r) × (r.status ≡ 200))
      × (length second.1.users ≡ 2)
unfolding has_any_user
racing_signups lib a b email email' password password' s o u ta tb i t e =
    let s1 = opened lib a email password s in
    let first : open_account lib a email password s ≡ (_, s1) =
      open_account_lem lib a email password s o (rw u refl) (rw u refl) ta in
    let second = open_account_lem lib b email' password' s1 o (rw (u, i) refl) (rw (u, e) refl) (
      find-append by_token (new_token a.token a.id s.now (30 * day)) b.token s.sessions ta
      ∙ rw (t, tb) refl) in
    rw first (rw second (rw (o, u) (refl, (_, refl, refl), (_, refl, refl), refl)))

signup_valid_opens :
    (lib : Library) (fresh : Fresh) (email password : String) (s : AuthStore)
    → s.online ≡ true
    → s.users ≡ []
    → s.sessions ≡ []
    → let address = lib.normalize email in
      signup_valid lib fresh email password s ≡ (
        ok (logged_in fresh.token address (some (welcome address))),
        opened lib fresh email password s,
      )
unfolding signup_valid has_any_user
signup_valid_opens lib fresh email password s o u n =
    rw (o, u)
      (rw
        (open_account_lem lib fresh email password (record s { online = true; users = [] }) refl
          refl refl (rw n refl))
        refl)

signup_valid_closed :
    (lib : Library) (fresh : Fresh) (email password : String) (s : AuthStore)
    → s.online ≡ true
    → 0 < length s.users
    → (signup_valid lib fresh email password s).0
      ≡ ok (refuse 409 "An account already exists — please log in instead")
unfolding signup_valid has_any_user
signup_valid_closed lib fresh email password s o u = rw (o, lt→ltb _ _ u) refl

-- On a reachable storage with no account or session, a signup with a valid email and a password of
-- 8 or more units succeeds; then these credentials log in, and a further valid signup gets 409, if
-- the hash of a password compares well with it.
signup_opens_account :
    (lib : Library) (a b c : Fresh) (req other : Request) (email password email' password' : String)
    (s : AuthStore)
    → present req.email ≡ some email
    → present req.password ≡ some password
    → present other.email ≡ some email'
    → present other.password ≡ some password'
    → is_valid_email email ≡ true
    → is_valid_email email' ≡ true
    → 8 ≤ utf16_length password
    → 8 ≤ utf16_length password'
    → s.online ≡ true
    → s.users ≡ []
    → s.sessions ≡ []
    → (a.token == b.token) ≡ false
    → lib.compare password (lib.hash a.salt password) ≡ true
    → let first = signup lib a req s in
      let address = lib.normalize email in
      (first.0 ≡ ok (logged_in a.token address (some (welcome address))))
      × ((login lib b req first.1).0 ≡ ok (logged_in b.token address none))
      × ((signup lib c other first.1).0
          ≡ ok (refuse 409 "An account already exists — please log in instead"))
unfolding signup
signup_opens_account lib a b c req other email password email' password' s e p e' p' v v' l l' o u n
      t m =
    let s1 = opened lib a email password s in
    let user = user_of lib a email password s.now in
    rw (e, p, e', p', v, v', le→ltb _ _ l, le→ltb _ _ l')
      (rw (signup_valid_opens lib a email password s o u n) (
        refl,
        ap (λ q. q.0)
            (login_lem lib b req email password user s1 e p o
              (rw (u, eq_refl (lib.normalize email)) refl) m (rw (n, t) refl)),
        signup_valid_closed lib c email' password' s1 o (rw u (omega arith)),
      ))
