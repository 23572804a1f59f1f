-- ===== src/Auth/Sessions.antt =====
-- authRoutes.ts: what a login is good for, and for how long.
use queueway.Store.Table.{find-append, find-without, find}
use queueway.Base.{
  ◌∙◌, ap, eq_refl, ◌+◌, leb, ℕ, [], ◌∷◌, ◌*◌, is_some, ◌++◌, if◌then◌else◌, ok, none, true, arith,
  some, false, ◌≡◌, ◌==◌, String, refl,
}
use queueway.Auth.Routes.{
  done, cleared, logout, logged_in, Request, login, require_auth, Fresh, Library,
}
use queueway.Auth.Accounts.{
  delete_session, day, by_id, new_token, has_expired, by_token, by_email, AuthStore, AuthUser,
  Token, find_user_by_id, create_session, find_session_user, find_user_by_email,
}
use queueway.Auth.Credentials.{present}

present_lem : (s : String) → (s == "") ≡ false → present (some s) ≡ some s
present_lem s h = ground (arith, h)

module _ (lib : Library) (fresh : Fresh) where
  pub login_lem :
      (req : Request) (email password : String) (user : AuthUser) (s : AuthStore)
      → present req.email ≡ some email
      → present req.password ≡ some password
      → s.online ≡ true
      → find by_email (lib.normalize email) s.users ≡ some user
      → lib.compare password user.password_hash ≡ true
      → find by_token fresh.token s.sessions ≡ none
      → login lib fresh req s ≡ (
        ok (logged_in fresh.token user.email none),
        record s { sessions = s.sessions ++ new_token fresh.token user.id s.now (30 * day) ∷ [] },
      )
  unfolding login find_user_by_email create_session
  login_lem req email password user s e p o f c n = rw (e, p, o, f, c, n) refl

  -- A session that stands in the table admits its user until its time is over.
  session_admits :
      (req : Request) (token : String) (t : Token) (s : AuthStore)
      → present req.cookie ≡ some token
      → s.online ≡ true
      → find by_token token s.sessions ≡ some t
      → require_auth req s
        ≡ (ok (if has_expired s.now t then false else is_some (find by_id t.user_id s.users)), s)
  unfolding require_auth find_session_user find_user_by_id
  session_admits req token t s c o f = rw (c, o, f) (ground arith)

  -- A login with the right password on a reachable storage, under a fresh token, gives a session
  -- that the guard admits at a later time exactly if no more than 30 days have passed.
  pub session_lifetime :
      (req next : Request) (email password : String) (user : AuthUser) (s : AuthStore) (later : ℕ)
      → present req.email ≡ some email
      → present req.password ≡ some password
      → s.online ≡ true
      → find by_email (lib.normalize email) s.users ≡ some user
      → find by_id user.id s.users ≡ some user
      → lib.compare password user.password_hash ≡ true
      → find by_token fresh.token s.sessions ≡ none
      → present next.cookie ≡ some fresh.token
      → ((login lib fresh req s).0 ≡ ok (logged_in fresh.token user.email none))
        × ((require_auth next (record (login lib fresh req s).1 { now = later })).0
            ≡ ok (leb later (s.now + 30 * day)))
  session_lifetime req next email password user s later e p o f i c n k =
      rw (login_lem req email password user s e p o f c n) (
        refl,
        let t = new_token fresh.token user.id s.now (30 * day) in
            ap (λ p. p.0)
              (session_admits next fresh.token t
                (record s { now = later; sessions = s.sessions ++ t ∷ [] }) k o
                (find-append by_token t fresh.token s.sessions n ∙ rw (eq_refl fresh.token) refl))
            ∙ rw i (ground arith),
      )

-- After a logout on a reachable storage the guard no longer admits any request that carries the
-- token of that session.
logout_ends_session :
    (req next : Request) (token : String) (s : AuthStore)
    → present req.cookie ≡ some token
    → present next.cookie ≡ some token
    → s.online ≡ true
    → (logout req s).0 ≡ ok (record { status = 200; cookie = cleared; body = done; mail = none })
      × ((require_auth next (logout req s).1).0 ≡ ok false)
unfolding logout delete_session require_auth find_session_user
logout_ends_session req next token s c k o =
    rw (c, k, o) (refl, rw (find-without by_token token token s.sessions, eq_refl token) refl)
