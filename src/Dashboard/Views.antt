-- ===== src/Dashboard/Views.antt =====
-- packages/dashboard/src/app/page.tsx: `DashboardPage`, which shows one of five views.
use queueway.Base.{String, Option, none, some, if◌then◌else◌}
use queueway.Auth.Credentials.{present}
use queueway.Auth.Routes.{Body}
use queueway.Dashboard.{Fetched, lost, got, is_ok, email_field, has_account_field}

pub data View : Type 0 where
  loading signup login reset dashboard : View

pub record Page : Type 0 where
  pub view : View
  pub user_email : Option String
  pub reset_token : Option String

abbrev pub first_page : Page
first_page = record { view = loading; user_email = none; reset_token = none }

abbrev pub view_without_session : Option Body → View
view_without_session none = login
view_without_session (some body) = if has_account_field body then login else signup

-- The second `try` of `checkAuth`, on the answer of `/auth/status`, whatever its status is.
unfoldable pub check_status : Fetched Body → Page → Page
check_status (lost e) p = record p { view = login }
check_status (got r) p = record p { view = view_without_session r.body }

abbrev pub welcomed : Option Body → Fetched Body → Page → Page
welcomed none status p = check_status status p
welcomed (some body) status p = record p { view = dashboard; user_email = email_field body }

-- `checkAuth`, on the answers of `/auth/me` and of `/auth/status`.
unfoldable pub check_auth : (me status : Fetched Body) → Page → Page
check_auth (lost e) status p = check_status status p
check_auth (got r) status p = if is_ok r then welcomed r.body status p else check_status status p

abbrev pub start_from : Option String → (me status : Fetched Body) → Page → Page
start_from none me status p = check_auth me status p
start_from (some token) me status p = record p { reset_token = some token; view = reset }

-- The effect of the first rendering: a link that resets a password comes first.
unfoldable pub mount : (reset_token : Option String) → (me status : Fetched Body) → Page → Page
mount token me status p = start_from (present token) me status p

-- `handleLogout`; a request that fails leaves the page as it is.
unfoldable pub handle_logout : Fetched Body → Page → Page
handle_logout (lost e) p = p
handle_logout (got r) p = record p { user_email = none; view = login }

-- `onSuccess` of the form that sets a new password.
unfoldable pub reset_done : Page → Page
reset_done p = record p { reset_token = none; view = login }

abbrev with_token : Option String → View
with_token none = dashboard
with_token (some token) = reset

-- What is rendered: a reset without a token falls through to the dashboard.
unfoldable pub rendered : Page → View
rendered p = elim p.view [
  | loading ↦ loading
  | signup ↦ signup
  | login ↦ login
  | reset ↦ with_token (present p.reset_token)
  | dashboard ↦ dashboard
]
