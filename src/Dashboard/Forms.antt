-- ===== src/Dashboard/Forms.antt =====
-- packages/dashboard/src/components/auth: `LoginForm`, `SignupForm` and `ResetPasswordForm`. A submission
-- has one step before its request and one for the answer, which says whether `onSuccess` is called.
use queueway.Base.{Bool, true, false, String, Option, none, some}
use queueway.Types.{or_else}
use queueway.Auth.Credentials.{present}
use queueway.Auth.Routes.{Body}
use queueway.Dashboard.{Fetched, lost, got, is_ok, error_field}

pub record Form : Type 0 where
  pub email : String
  pub password : String
  pub error : Option String
  pub loading : Bool

-- `data.error || fallback`
abbrev pub error_text : String → Body → String
error_text fallback body = or_else (present (error_field body)) fallback

unfoldable pub begin_submit : Form → Form
begin_submit f = record f { error = none; loading = true }

abbrev pub no_server : Form → Bool × Form
no_server f = (false, record f { error = some "Could not reach the server"; loading = false })

abbrev pub judged : String → Bool → Option Body → Form → Bool × Form
judged fallback success none f = no_server f
judged fallback false (some body) f =
    (false, record f { error = some (error_text fallback body); loading = false })
judged fallback true (some body) f = (true, record f { loading = false })

-- The `try` block past the request, its `catch` and its `finally`.
unfoldable pub end_submit : String → Fetched Body → Form → Bool × Form
end_submit fallback (lost e) f = no_server f
end_submit fallback (got r) f = judged fallback (is_ok r) r.body f

unfoldable pub handle_submit : String → Fetched Body → Form → Bool × Form
handle_submit fallback res f = end_submit fallback res (begin_submit f)

abbrev pub login_submit : Fetched Body → Form → Bool × Form
login_submit = handle_submit "Login failed"

abbrev pub signup_submit : Fetched Body → Form → Bool × Form
signup_submit = handle_submit "Signup failed"

-- This form has no email; its token stands in the page.
abbrev pub reset_submit : Fetched Body → Form → Bool × Form
reset_submit = handle_submit "Could not reset password"

-- The part of `LoginForm` that asks for a link.
pub record Forgot : Type 0 where
  pub forgot_mode : Bool
  pub forgot_sent : Bool
  pub loading : Bool

-- Whatever the answer is, the link counts as sent; a request that fails only ends the wait.
unfoldable pub handle_forgot : Fetched Body → Forgot → Forgot
handle_forgot (lost e) f = record f { loading = false }
handle_forgot (got r) f = record f { forgot_sent = true; loading = false }

unfoldable pub enter_forgot : Forgot → Forgot
enter_forgot f = record f { forgot_mode = true }

unfoldable pub leave_forgot : Forgot → Forgot
leave_forgot f = record f { forgot_mode = false; forgot_sent = false }
