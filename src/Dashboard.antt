-- ===== src/Dashboard.antt =====
-- packages/dashboard/src: the page that the server serves, what its requests come back with, its views
-- and its forms. Rendering, styles and the theme are left out.
use queueway.Base.{◌&&◌, leb, ltb, ℕ, Bool, String, Option, none, some, Result, ok, err, false}
use queueway.Auth.Routes.{Body, Reply, account, has_account, error}
pub mod Views
pub mod Entry
pub mod Content
pub mod Forms
pub mod Confirmed
pub mod Recovery
pub mod Refreshing
pub mod Table

-- A response of `fetch`; its body is `none` where it is not JSON, so that `json()` rejects.
pub record FetchResponse (A : Type 0) : Type 0 where
  pub status : ℕ
  pub body : Option A

-- `fetch` rejects, with the message of its error, only where no response arrives.
pub data Fetched (A : Type 0) : Type 0 where
  lost : Option String → Fetched A
  got : FetchResponse A → Fetched A

-- `res.ok`
abbrev pub is_ok : {A : Type 0} → FetchResponse A → Bool
is_ok r = leb 200 r.status && ltb r.status 300

-- The fields that the page reads of the JSON of the routes under `/auth`.
abbrev pub email_field : Body → Option String
email_field (account email) = some email
email_field _ = none

abbrev pub error_field : Body → Option String
error_field (error text) = some text
error_field _ = none

abbrev pub has_account_field : Body → Bool
has_account_field (has_account b) = b
has_account_field _ = false

abbrev pub of_reply : Reply → FetchResponse Body
of_reply r = record { status = r.status; body = some r.body }

-- What arrives of a handler's answer; one that rejects leaves its request unanswered until it is given
-- up.
abbrev pub arrives : Result Reply → Fetched Body
arrives (ok r) = got (of_reply r)
arrives (err e) = lost none
