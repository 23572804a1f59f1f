-- ===== src/Auth/Routes.antt =====
-- packages/core/src/auth/authRoutes.ts: the handlers of `/auth/*`, and the guard of `/queueway/*`. A
-- handler that rejects outside a `try` has an error for its result.
use queueway.Base.{
  ℕ, String, Bool, not, Option, none, some, ltb, is_some, if◌then◌else◌, Exec, Result, ok, err,
  pure, ◌>>=◌, ◌>>◌,
}
use Prim.Native.String.{◌++◌}
use queueway.Auth.Credentials.{is_valid_email, utf16_length, present}
use queueway.Auth.Accounts.{
  AuthUser, AuthStore, has_any_user, create_user, find_user_by_email, update_password,
  create_session, find_session_user, delete_session, create_password_reset, consume_password_reset,
}

-- What the handlers use of bcryptjs and of JavaScript's texts. `hash` takes the random salt.
pub record Library : Type 0 where
  pub normalize : String → String
  pub hash : String → String → String
  pub compare : String → String → Bool

-- What one request meets: its random values, and whether the DELETE of a reset token succeeds.
pub record Fresh : Type 0 where
  pub id : String
  pub token : String
  pub salt : String
  pub deletes : Bool

pub record Request : Type 0 where
  pub email : Option String
  pub password : Option String
  pub token : Option String
  pub cookie : Option String
  pub base_url : String

pub data Cookie : Type 0 where
  kept cleared : Cookie
  issued : String → Cookie

pub data Body : Type 0 where
  has_account : Bool → Body
  account : String → Body
  done : Body
  error : String → Body

pub data Mail : Type 0 where
  welcome : String → Mail
  password_reset : String → String → Mail

-- The answer of a handler, and the mail that it sends without waiting.
pub record Reply : Type 0 where
  pub status : ℕ
  pub cookie : Cookie
  pub body : Body
  pub mail : Option Mail

abbrev pub refuse : ℕ → String → Reply
refuse status text = record { status = status; cookie = kept; body = error text; mail = none }

abbrev pub succeed : Body → Reply
succeed body = record { status = 200; cookie = kept; body = body; mail = none }

abbrev pub answered : String → Result Reply × AuthStore → Result Reply × AuthStore
answered text (ok r, s) = (ok r, s)
answered text (err e, s) = (ok (refuse 500 text), s)

-- `try { … } catch { res.status(500) }`
abbrev pub caught : String → Exec AuthStore Reply → Exec AuthStore Reply
caught text m s = answered text (m s)

unfoldable pub account_status : Exec AuthStore Reply
account_status = do b ← has_any_user; pure (succeed (has_account b))

abbrev pub logged_in : String → String → Option Mail → Reply
logged_in token email mail = record {
  status = 200;
  cookie = issued token;
  body = account email;
  mail = mail;
}

module _ (lib : Library) (fresh : Fresh) where
  -- What follows `bcrypt.hash` in `/auth/signup`.
  unfoldable pub open_account : String → String → Exec AuthStore Reply
  open_account email password = do
    user ← create_user lib.normalize fresh.id email (lib.hash fresh.salt password)
    token ← create_session fresh.token user.id 30
    pure (logged_in token user.email (some (welcome user.email)))

  unfoldable pub signup_valid : String → String → Exec AuthStore Reply
  signup_valid email password = caught "Signup failed" (do
    taken ← has_any_user
    if taken
        then pure (refuse 409 "An account already exists — please log in instead")
        else open_account email password)

  abbrev pub signup_with : Option String → Option String → Exec AuthStore Reply
  signup_with (some email) (some password) =
      if not (is_valid_email email)
      then pure (refuse 400 "Valid email and password are required")
      else if ltb (utf16_length password) 8
      then pure (refuse 400 "Password must be at least 8 characters")
      else signup_valid email password
  signup_with _ _ = pure (refuse 400 "Valid email and password are required")

  unfoldable pub signup : Request → Exec AuthStore Reply
  signup req = signup_with (present req.email) (present req.password)

  abbrev pub login_as : String → Option AuthUser → Exec AuthStore Reply
  login_as password none = pure (refuse 401 "Invalid email or password")
  login_as password (some user) =
      if lib.compare password user.password_hash
      then (do
        token ← create_session fresh.token user.id 30
        pure (logged_in token user.email none))
      else pure (refuse 401 "Invalid email or password")

  abbrev pub login_with : Option String → Option String → Exec AuthStore Reply
  login_with (some email) (some password) =
      caught "Login failed"
        (do user ← find_user_by_email lib.normalize email; login_as password user)
  login_with _ _ = pure (refuse 400 "Email and password are required")

  unfoldable pub login : Request → Exec AuthStore Reply
  login req = login_with (present req.email) (present req.password)

  abbrev pub send_reset : Request → Option AuthUser → Exec AuthStore Reply
  send_reset req none = pure (succeed done)
  send_reset req (some user) = do
    token ← create_password_reset fresh.token user.id 60
    pure (record (succeed done) {
      mail = some (password_reset user.email (req.base_url ++ "/?resetToken=" ++ token));
    })

  abbrev pub find_for_reset : Option String → Exec AuthStore (Option AuthUser)
  find_for_reset none = pure none
  find_for_reset (some email) = find_user_by_email lib.normalize email

  unfoldable pub forgot_password : Request → Exec AuthStore Reply
  forgot_password req = do user ← find_for_reset (present req.email); send_reset req user

  abbrev pub set_new_password : String → Option String → Exec AuthStore Reply
  set_new_password password none = pure (refuse 400 "This reset link is invalid or has expired")
  set_new_password password (some user_id) = do
    update_password user_id (lib.hash fresh.salt password)
    pure (succeed done)

  -- The `try` block of `/auth/reset-password`, past the tests.
  unfoldable pub redeem : String → String → Exec AuthStore Reply
  redeem token password =
      caught "Could not reset password"
        (do user_id ← consume_password_reset fresh.deletes token; set_new_password password user_id)

  abbrev pub reset_with : Option String → Option String → Exec AuthStore Reply
  reset_with (some token) (some password) =
      if ltb (utf16_length password) 8
      then pure (refuse 400 "A valid token and an 8+ character password are required")
      else caught "Could not reset password" (do
        user_id ← consume_password_reset fresh.deletes token
        set_new_password password user_id)
  reset_with _ _ = pure (refuse 400 "A valid token and an 8+ character password are required")

  unfoldable pub reset_password : Request → Exec AuthStore Reply
  reset_password req = reset_with (present req.token) (present req.password)

abbrev pub end_session : Option String → Exec AuthStore (Unit {0})
end_session none = pure tt
end_session (some token) = delete_session token

unfoldable pub logout : Request → Exec AuthStore Reply
logout req = do
  end_session (present req.cookie)
  pure (record { status = 200; cookie = cleared; body = done; mail = none })

abbrev pub session_user : Option String → Exec AuthStore (Option AuthUser)
session_user none = pure none
session_user (some token) = find_session_user token

abbrev pub describe : Option AuthUser → Reply
describe none = refuse 401 "Not logged in"
describe (some user) = succeed (account user.email)

unfoldable pub me : Request → Exec AuthStore Reply
me req = do user ← session_user (present req.cookie); pure (describe user)

-- Whether `next()` is called; otherwise the answer is 401.
unfoldable pub require_auth : Request → Exec AuthStore Bool
require_auth req = do user ← session_user (present req.cookie); pure (is_some user)
