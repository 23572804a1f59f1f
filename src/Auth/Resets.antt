-- ===== src/Auth/Resets.antt =====
-- authRoutes.ts: forgotten passwords.
use mathlib.Core.Option
use queueway.Store.Table.{without, rewrite, find-without, find}
use queueway.Auth.Routes.{
  logged_in, login, redeem, done, succeed, refuse, Mail, Request, Fresh, Library, forgot_password,
  reset_password,
}
use queueway.Auth.Accounts.{
  by_id, with_password, AuthUser, Token, by_email, has_expired, by_token, AuthStore,
  update_password, create_password_reset, consume_password_reset, find_user_by_email,
}
use queueway.Base.{
  [], arith, ap, ◌∷◌, ◌==◌, if◌then◌else◌, List, Bool-cases, inr, inl, Option-cases, eq_refl, ◌∙◌,
  refl, le→ltb, ok, ◌≤◌, Option, none, some, true, ◌≡◌, String,
}
use queueway.Auth.Credentials.{utf16_length, present}
use queueway.Auth.Sessions.{login_lem}

-- With a reachable storage and a fresh token the answer to a forgotten password is the same
-- whether or not the email has an account; only the mail that is sent differs.
forgot_password_hides :
    (lib : Library) (fresh : Fresh) (req : Request) (s : AuthStore)
    → s.online ≡ true
    → find by_token fresh.token s.resets ≡ none
    → (mail : Option Mail) × ((forgot_password lib fresh req s).0
        ≡ ok (record (succeed done) { mail = mail }))
unfolding forgot_password find_user_by_email create_password_reset
forgot_password_hides lib fresh req s o n = elim (Option-cases (present req.email)) [
  | inl e ↦ rw e (none, refl)
  | inr (email, e) ↦
      rw (e, o)
        (elim (Option-cases (find by_email (lib.normalize email) s.users)) [
          | inl f ↦ rw f (none, refl)
          | inr (user, f) ↦ rw (f, n) (_, refl)
        ])
]

spent_is_refused :
    (lib : Library) (fresh : Fresh) (token password : String) (s : AuthStore)
    → s.online ≡ true
    → find by_token token s.resets ≡ none
    → (redeem lib fresh token password s).0
      ≡ ok (refuse 400 "This reset link is invalid or has expired")
unfolding redeem consume_password_reset
spent_is_refused lib fresh token password s o e = rw (o, e) refl

reset_spends :
    (lib : Library) (fresh : Fresh) (token password : String) (s : AuthStore)
    → s.online ≡ true
    → fresh.deletes ≡ true
    → let s' = (redeem lib fresh token password s).1 in
      (s'.online ≡ true) × (find by_token token s'.resets ≡ none)
unfolding redeem consume_password_reset update_password
reset_spends lib fresh token password s o d =
    let gone = find-without by_token token token s.resets ∙ rw (eq_refl token) refl in
    elim (Option-cases (find by_token token s.resets)) [
      | inl e ↦ rw (o, e) (refl, e)
      | inr (t, e) ↦ elim (Bool-cases (has_expired s.now t)) [
        | inl x ↦ rw (o, e, x, d) (refl, gone)
        | inr x ↦ rw (o, e, x, d) (refl, gone)
      ]
    ]

-- After a request to reset a password with some token and a long enough password, on a reachable
-- storage where the row of the token can be deleted, another such request with the same token is
-- refused, whether or not the first one succeeded.
pub reset_works_once :
    (lib : Library) (a b : Fresh) (req again : Request) (token password password' : String)
    (s : AuthStore)
    → s.online ≡ true
    → a.deletes ≡ true
    → present req.token ≡ some token
    → present again.token ≡ some token
    → present req.password ≡ some password
    → present again.password ≡ some password'
    → 8 ≤ utf16_length password
    → 8 ≤ utf16_length password'
    → (reset_password lib b again (reset_password lib a req s).1).0
      ≡ ok (refuse 400 "This reset link is invalid or has expired")
unfolding reset_password redeem
reset_works_once lib a b req again token password password' s o d t t' p p' l l' =
    rw (t, t', p, p', le→ltb _ _ l, le→ltb _ _ l')
      (let (up, gone) = reset_spends lib a token password s o d in
        spent_is_refused lib b token password' (redeem lib a token password s).1 up gone)

find-rewrite_across :
    {R : Type 0} (key look : R → String) (k j : String) (f : R → R) (rs : List R)
    → ((r : R) → look (f r) ≡ look r)
    → find look j (rewrite key k f rs)
      ≡ Option.map (λ r. if key r == k then f r else r) (find look j rs)
find-rewrite_across key look k j f [] h = refl
find-rewrite_across key look k j f (r ∷ rs) h =
    ground (arith, find-rewrite_across key look k j f rs h, h r)

-- A reset token that has not expired sets the password of its user, so that the new password logs
-- in under a fresh session token, if the hash of a password compares well with it.
pub reset_sets_password :
    (lib : Library) (a b : Fresh) (req next : Request) (token email password : String) (t : Token)
    (user : AuthUser) (s : AuthStore)
    → s.online ≡ true
    → present req.token ≡ some token
    → present req.password ≡ some password
    → 8 ≤ utf16_length password
    → find by_token token s.resets ≡ some t
    → s.now ≤ t.expires_at
    → present next.email ≡ some email
    → present next.password ≡ some password
    → find by_email (lib.normalize email) s.users ≡ some user
    → t.user_id ≡ user.id
    → find by_token b.token s.sessions ≡ none
    → lib.compare password (lib.hash a.salt password) ≡ true
    → let first = reset_password lib a req s in
      (first.0 ≡ ok (succeed done))
      × ((login lib b next first.1).0 ≡ ok (logged_in b.token user.email none))
unfolding reset_password redeem consume_password_reset update_password
reset_sets_password lib a b req next token email password t user s o tk p l f x e p' g i n c =
    rw (tk, p, le→ltb _ _ l, o, f, le→ltb _ _ x)
      (elim (Bool-cases a.deletes) [
        | inl d ↦ rw d (refl, then_logs_in (without by_token token s.resets))
        | inr d ↦ rw d (refl, then_logs_in s.resets)
      ])
  where
    reset : AuthUser → AuthUser
    reset = with_password (lib.hash a.salt password)

    then_logs_in :
        (resets : List Token)
        → (login lib b next (record s {
          online = true;
          resets = resets;
          users = rewrite by_id t.user_id reset s.users;
        })).0
          ≡ ok (logged_in b.token user.email none)
    then_logs_in resets =
        ap (λ q. q.0)
          (login_lem lib b next email password (reset user)
            (record s {
              online = true;
              resets = resets;
              users = rewrite by_id t.user_id reset s.users;
            })
            e p' refl
            (find-rewrite_across by_id by_email t.user_id (lib.normalize email) reset s.users
                (λ u. refl)
              ∙ rw (g, i, eq_refl user.id) refl)
            c n)
