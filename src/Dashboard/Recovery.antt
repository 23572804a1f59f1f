-- ===== src/Dashboard/Recovery.antt =====
-- page.tsx, ResetPasswordForm.tsx and authRoutes.ts together: the way of a user who has forgotten the
-- password.
use queueway.Base.{
  ◌≡◌, ◌∙◌, ◌≤◌, ◌++◌, ◌∷◌, [], eq_refl, arith, refl, true, false, String, none, some, ok, ◌*◌,
}
use Prim.Native.String.{◌++◌ as ◌++ₜ◌}
use queueway.Store.Table.{find, find-append}
use queueway.Auth.Accounts.{
  AuthStore, AuthUser, by_email, by_token, new_token, minute, find_user_by_email,
  create_password_reset,
}
use queueway.Auth.Credentials.{present, utf16_length}
use queueway.Auth.Routes.{
  Library, Fresh, Request, Body, forgot_password, reset_password, login, logged_in, succeed, done,
  password_reset,
}
use queueway.Auth.Resets.{reset_sets_password}
use queueway.Dashboard.{Fetched, arrives}
use queueway.Dashboard.Views.{View, first_page, mount, rendered, reset_done}
use queueway.Dashboard.Forms.{Form, reset_submit, handle_submit, begin_submit, end_submit}

abbrev with_reset : Fresh → AuthUser → AuthStore → AuthStore
with_reset fresh user s = record s {
  resets = s.resets ++ new_token fresh.token user.id s.now (60 * minute) ∷ [];
}

forgot_password_sends :
    (lib : Library) (fresh : Fresh) (req : Request) (email : String) (user : AuthUser)
    (s : AuthStore)
    → present req.email ≡ some email
    → s.online ≡ true
    → find by_email (lib.normalize email) s.users ≡ some user
    → find by_token fresh.token s.resets ≡ none
    → forgot_password lib fresh req s ≡ (
      ok (record (succeed done) {
        mail = some (password_reset user.email (req.base_url ++ₜ "/?resetToken=" ++ₜ fresh.token));
      }),
      with_reset fresh user s,
    )
unfolding forgot_password find_user_by_email create_password_reset
forgot_password_sends lib fresh req email user s e o f n = rw (e, o, f, n) refl

-- On a reachable login storage with fresh tokens, the request of a user who has forgotten the
-- password hands the mailer a mail with a link, which is sent only where mail is configured. If the
-- link reaches the user, its page is the form for a new password; a password of 8 or more units is
-- accepted there at the same instant, leads to the login form, and logs the user in, if its hash
-- compares well with it.
pub forgotten_password_recovers :
    (lib : Library) (a b c : Fresh) (ask redeem next : Request) (email password : String)
    (user : AuthUser) (s : AuthStore) (f : Form) (me status : Fetched Body)
    → s.online ≡ true
    → present ask.email ≡ some email
    → find by_email (lib.normalize email) s.users ≡ some user
    → find by_token a.token s.resets ≡ none
    → present (some a.token) ≡ some a.token
    → present redeem.token ≡ some a.token
    → present redeem.password ≡ some password
    → 8 ≤ utf16_length password
    → present next.email ≡ some email
    → present next.password ≡ some password
    → find by_token c.token s.sessions ≡ none
    → lib.compare password (lib.hash b.salt password) ≡ true
    → let (asked, s1) = forgot_password lib a ask s in
      let page = mount (some a.token) me status first_page in
      let (answer, s2) = reset_password lib b redeem s1 in
      (asked
        ≡ ok (record (succeed done) {
          mail = some (password_reset user.email (ask.base_url ++ₜ "/?resetToken=" ++ₜ a.token));
        }))
      × (rendered page ≡ View.reset)
      × (reset_submit (arrives answer) f ≡ (true, record f { error = none; loading = false }))
      × (rendered (reset_done page) ≡ View.login)
      × ((login lib c next s2).0 ≡ ok (logged_in c.token user.email none))
unfolding mount rendered reset_done handle_submit begin_submit end_submit
forgotten_password_recovers lib a b c ask redeem next email password user s f me status o e u n k t
      p l e' p' m h =
    let r = new_token a.token user.id s.now (60 * minute) in
    let found : find by_token a.token (with_reset a user s).resets ≡ some r =
      find-append by_token r a.token s.resets n ∙ rw (eq_refl a.token) refl in
    let (set, logs_in) =
      reset_sets_password lib b c redeem next a.token email password r user (with_reset a user s) o
        t p l found (omega arith) e' p' u refl m h in
    rw (forgot_password_sends lib a ask email user s e o u n)
      (refl, rw (k, k) refl, rw set refl, refl, logs_in)
