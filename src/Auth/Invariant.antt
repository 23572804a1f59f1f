-- ===== src/Auth/Invariant.antt =====
-- What every request to `/auth/*` leaves true of the login storage.
use queueway.Auth.Keeps.{
  create_user-IsSound, find_user_by_email-Keeps, find_session_user-Keeps,
  consume_password_reset-Keeps, create_password_reset-Keeps, update_password-Keeps,
  create_session-Keeps, delete_session-Keeps, pure-Keeps, caught-Keeps, continue-IsSound,
  bind-Keeps, if-Keeps, Keeps, IsSound,
}
use queueway.Base.{
  true, inr, ltb, not, inl, Bool-cases, none, [], ◌∷◌, some, ◌≡◌, arith, length, ℕ, List, Option,
  Bool, String, Exec,
}
use queueway.Auth.Accounts.{has_any_user, AuthUser, AuthStore}
use queueway.Auth.Routes.{
  redeem, me, logout, reset_password, forgot_password, send_reset, login, session_user, reset_with,
  Request, find_for_reset, signup_with, set_new_password, end_session, signup, login_as,
  signup_valid, open_account, login_with, Reply, Fresh, Library,
}
use queueway.Auth.Credentials.{present, utf16_length, is_valid_email}

module _ (lib : Library) (fresh : Fresh) where
  login_as-Keeps : (password : String) (o : Option AuthUser) → Keeps (login_as lib fresh password o)
  login_as-Keeps password none = pure-Keeps _
  login_as-Keeps password (some user) =
      if-Keeps (lib.compare password user.password_hash)
        (bind-Keeps (create_session-Keeps fresh.token user.id 30) (λ token. pure-Keeps _))
        (pure-Keeps _)

  login_with-Keeps : (email password : Option String) → Keeps (login_with lib fresh email password)
  login_with-Keeps (some email) (some password) =
      caught-Keeps _
        (bind-Keeps (find_user_by_email-Keeps lib.normalize email) (login_as-Keeps password))
  login_with-Keeps none _ = pure-Keeps _
  login_with-Keeps (some email) none = pure-Keeps _

  open_account-IsSound :
      (email password : String) (s : AuthStore)
      → length s.users ≡ 0
      → IsSound s
      → IsSound (open_account lib fresh email password s).1
  unfolding open_account
  open_account-IsSound email password s e h =
      continue-IsSound _ _ _
        (λ (user : AuthUser).
          bind-Keeps (create_session-Keeps fresh.token user.id 30) (λ token. pure-Keeps _))
        (create_user-IsSound lib.normalize fresh.id email (lib.hash fresh.salt password) s e h)

  signup_valid-Keeps : (email password : String) → Keeps (signup_valid lib fresh email password)
  unfolding signup_valid has_any_user
  signup_valid-Keeps email password = caught-Keeps _ (record {
    kept = λ s h. elim (Bool-cases s.online) [
      | inl o ↦ rw o (elim (Bool-cases (ltb 0 (length s.users))) [
        | inl e ↦ rw e h
        | inr e ↦
            rw e (
              open_account-IsSound email password (record s { online = true }) (ground (arith, e))
                h)
      ])
      | inr o ↦ rw o h
    ];
  })

  signup_with-Keeps :
      (email password : Option String) → Keeps (signup_with lib fresh email password)
  signup_with-Keeps (some email) (some password) =
      if-Keeps (not (is_valid_email email)) (pure-Keeps _) (
        if-Keeps (ltb (utf16_length password) 8) (pure-Keeps _) (signup_valid-Keeps email password))
  signup_with-Keeps none _ = pure-Keeps _
  signup_with-Keeps (some email) none = pure-Keeps _

  send_reset-Keeps : (req : Request) (o : Option AuthUser) → Keeps (send_reset lib fresh req o)
  send_reset-Keeps req none = pure-Keeps _
  send_reset-Keeps req (some user) =
      bind-Keeps (create_password_reset-Keeps fresh.token user.id 60) (λ token. pure-Keeps _)

  find_for_reset-Keeps : (o : Option String) → Keeps (find_for_reset lib fresh o)
  find_for_reset-Keeps none = pure-Keeps _
  find_for_reset-Keeps (some email) = find_user_by_email-Keeps lib.normalize email

  set_new_password-Keeps :
      (password : String) (o : Option String) → Keeps (set_new_password lib fresh password o)
  set_new_password-Keeps password none = pure-Keeps _
  set_new_password-Keeps password (some id) =
      bind-Keeps (update_password-Keeps id (lib.hash fresh.salt password)) (λ _. pure-Keeps _)

  redeem-Keeps : (token password : String) → Keeps (redeem lib fresh token password)
  unfolding redeem
  redeem-Keeps token password = caught-Keeps _ (
      bind-Keeps (consume_password_reset-Keeps fresh.deletes token)
        (set_new_password-Keeps password))

  reset_with-Keeps : (token password : Option String) → Keeps (reset_with lib fresh token password)
  unfolding redeem
  reset_with-Keeps (some token) (some password) =
      if-Keeps (ltb (utf16_length password) 8) (pure-Keeps _) (redeem-Keeps token password)
  reset_with-Keeps none _ = pure-Keeps _
  reset_with-Keeps (some token) none = pure-Keeps _

end_session-Keeps : (o : Option String) → Keeps (end_session o)
end_session-Keeps none = pure-Keeps _
end_session-Keeps (some token) = delete_session-Keeps token

session_user-Keeps : (o : Option String) → Keeps (session_user o)
session_user-Keeps none = pure-Keeps _
session_user-Keeps (some token) = find_session_user-Keeps token

-- One request to `/auth/*`, with the random values that it draws; a clock may go on before it.
pub data Visit : Type 0 where
  sign_up log_in forgot reset : Fresh → Request → Visit
  log_out who : Request → Visit

unfoldable pub handle : Library → Visit → Exec AuthStore Reply
handle lib (sign_up fresh req) = signup lib fresh req
handle lib (log_in fresh req) = login lib fresh req
handle lib (forgot fresh req) = forgot_password lib fresh req
handle lib (reset fresh req) = reset_password lib fresh req
handle lib (log_out req) = logout req
handle lib (who req) = me req

handle-Keeps : (lib : Library) (v : Visit) → Keeps (handle lib v)
unfolding handle signup login forgot_password reset_password logout me
handle-Keeps lib (sign_up fresh req) =
    signup_with-Keeps lib fresh (present req.email) (present req.password)
handle-Keeps lib (log_in fresh req) =
    login_with-Keeps lib fresh (present req.email) (present req.password)
handle-Keeps lib (forgot fresh req) =
    bind-Keeps (find_for_reset-Keeps lib fresh (present req.email)) (send_reset-Keeps lib fresh req)
handle-Keeps lib (reset fresh req) =
    reset_with-Keeps lib fresh (present req.token) (present req.password)
handle-Keeps lib (log_out req) =
    bind-Keeps (end_session-Keeps (present req.cookie)) (λ _. pure-Keeps _)
handle-Keeps lib (who req) =
    bind-Keeps (session_user-Keeps (present req.cookie)) (λ user. pure-Keeps _)

-- The state after requests that come one at a time, each at its own time, the file being reachable
-- or not.
unfoldable pub serve_all : Library → List (ℕ × Bool × Visit) → AuthStore → AuthStore
serve_all lib [] s = s
serve_all lib ((now, online, v) ∷ vs) s =
    serve_all lib vs (handle lib v (record s { now = now; online = online })).1

-- Requests to /auth/* that come one at a time, at any times and with the storage reachable or not,
-- keep it sound: at most one account, and no session or reset token twice.
pub single_account :
    (lib : Library) (vs : List (ℕ × Bool × Visit)) (s : AuthStore)
    → IsSound s
    → IsSound (serve_all lib vs s)
unfolding serve_all
single_account lib [] s h = h
single_account lib ((now, online, v) ∷ vs) s h =
    single_account lib vs _ ((handle-Keeps lib v).kept (record s { now = now; online = online }) h)
