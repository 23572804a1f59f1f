-- ===== src/Tests/Logins.antt =====
-- The login at concrete requests.
use queueway.Auth.Keeps.{IsSound}
use queueway.Auth.Routes.{
  done, password_reset, succeed, forgot_password, require_auth, refuse, Reply, logged_in,
  reset_password, open_account, Request, Library, login, Fresh,
}
use queueway.Auth.Invariant.{who, sign_up, Visit, single_account, serve_all}
use Prim.Native.String.{◌++◌ as ◌++ₜ◌}
use queueway.Base.{
  length, Bool, arith, ℕ, ◌∷◌, ◌==◌, ◌≡◌, chars, [], List, refl, ok, true, false, some, none,
}
use queueway.Auth.Accounts.{has_any_user, AuthStore, AuthUser}
use queueway.Auth.Credentials.{utf16_length}
use queueway.Auth.Sessions.{session_lifetime}
use queueway.Auth.Signup.{racing_signups}
use queueway.Auth.Resets.{reset_works_once}
use queueway.Dashboard.Forms.{reset_submit, login_submit, Form}
use queueway.Dashboard.{lost, arrives}
use queueway.Dashboard.Entry.{login_opens_dashboard, enter}
use queueway.Dashboard.Views.{reset_done, rendered, mount, View, dashboard, first_page}
use queueway.Dashboard.Recovery.{forgotten_password_recovers}

-- A hash that shows its salt, and an address that is kept as it is.
abbrev lib : Library
lib = record {
  normalize = λ email. email;
  hash = λ salt password. salt ++ₜ password;
  compare = λ password hash. ("s" ++ₜ password) == hash;
}

abbrev fresh_a : Fresh
fresh_a = record { id = "u1"; token = "t1"; salt = "s"; deletes = true }

abbrev fresh_b : Fresh
fresh_b = record { id = "u2"; token = "t2"; salt = "s"; deletes = true }

abbrev ann : Request
ann = record {
  email = some "ann@x.io";
  password = some "longenough";
  token = some "r1";
  cookie = some "t1";
  base_url = "http://localhost";
}

abbrev bob : Request
bob = record ann { email = some "bob@x.io"; password = some "otherwords" }

abbrev empty_site : AuthStore
empty_site = record { online = true; now = 1000; users = []; sessions = []; resets = [] }

abbrev ann_user : AuthUser
ann_user = record { id = "u1"; email = "ann@x.io"; password_hash = "slongenough"; created_at = 5 }

abbrev ann_site : AuthStore
ann_site = record empty_site {
  users = ann_user ∷ [];
  resets = record { token = "r1"; user_id = "u1"; created_at = 0; expires_at = 2000 } ∷ [];
}

-- At the last millisecond of the thirty days.
session_lifetime_example :
    ((login lib fresh_a ann ann_site).0 ≡ ok (logged_in "t1" "ann@x.io" none))
    × ((require_auth ann (record (login lib fresh_a ann ann_site).1 { now = 2592001000 })).0
        ≡ ok true)
session_lifetime_example =
    session_lifetime lib fresh_a ann ann "ann@x.io" "longenough" ann_user ann_site 2592001000 refl
      refl refl refl refl refl refl refl

abbrev with_session : AuthStore
with_session = record ann_site {
  sessions = record { token = "t1"; user_id = "u1"; created_at = 0; expires_at = 9000 } ∷ [];
}

abbrev visits : List (ℕ × Bool × Visit)
visits = (1, true, sign_up fresh_a ann) ∷ (2, false, who ann) ∷ (3, true, sign_up fresh_b bob) ∷ []

single_account_example : IsSound (serve_all lib visits empty_site)
single_account_example = single_account lib visits empty_site (omega arith, tt, tt)

racing_signups_example :
    let first = open_account lib fresh_a "ann@x.io" "longenough" empty_site in
    let second = open_account lib fresh_b "bob@x.io" "otherwords" first.1 in
    ((has_any_user empty_site).0 ≡ ok false)
    × ((r : Reply) × (first.0 ≡ ok r) × (r.status ≡ 200))
    × ((r : Reply) × (second.0 ≡ ok r) × (r.status ≡ 200))
    × (length second.1.users ≡ 2)
racing_signups_example =
    racing_signups lib fresh_a fresh_b "ann@x.io" "bob@x.io" "longenough" "otherwords" empty_site
      refl refl refl refl refl refl refl

reset_works_once_example :
    (reset_password lib fresh_b ann (reset_password lib fresh_a bob ann_site).1).0
    ≡ ok (refuse 400 "This reset link is invalid or has expired")
unfolding utf16_length chars
reset_works_once_example =
    reset_works_once lib fresh_a fresh_b bob ann "r1" "otherwords" "longenough" ann_site refl refl
      refl refl refl refl (omega arith) (omega arith)

abbrev locked : Fresh
locked = record fresh_a { deletes = false }

abbrev ann_again : Request
ann_again = record ann { password = some "otherwords" }

abbrev form : Form
form = record { email = "ann@x.io"; password = "longenough"; error = none; loading = false }

login_opens_dashboard_example :
    let (answer, s) = login lib fresh_a ann ann_site in
    (login_submit (arrives answer) form ≡ (true, form))
    × (enter ann s first_page
        ≡ record { view = dashboard; user_email = some "ann@x.io"; reset_token = none })
login_opens_dashboard_example =
    login_opens_dashboard lib fresh_a ann ann "ann@x.io" "longenough" ann_user ann_site form
      first_page refl refl refl refl refl refl refl refl

abbrev empty_resets : AuthStore
empty_resets = record ann_site { resets = [] }

abbrev forgetful : Request
forgetful = record ann { token = some "t1" }

forgotten_password_recovers_example :
    let (asked, s1) = forgot_password lib fresh_a ann empty_resets in
    let page = mount (some "t1") (lost none) (lost none) first_page in
    let (answer, s2) = reset_password lib fresh_a forgetful s1 in
    (asked
      ≡ ok (record (succeed done) {
        mail = some (password_reset "ann@x.io" "http://localhost/?resetToken=t1");
      }))
    × (rendered page ≡ View.reset)
    × (reset_submit (arrives answer) form ≡ (true, form))
    × (rendered (reset_done page) ≡ View.login)
    × ((login lib fresh_b ann s2).0 ≡ ok (logged_in "t2" "ann@x.io" none))
unfolding utf16_length chars
forgotten_password_recovers_example =
    forgotten_password_recovers lib fresh_a fresh_a fresh_b ann forgetful ann "ann@x.io"
      "longenough" ann_user empty_resets form (lost none) (lost none) refl refl refl refl refl refl
      refl (omega arith) refl refl refl refl
