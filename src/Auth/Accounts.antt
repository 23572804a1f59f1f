-- ===== src/Auth/Accounts.antt =====
-- packages/core/src/auth/AuthStore.ts: the users, sessions and password resets in auth.db. Random
-- tokens and ids are arguments; the clock stands in the store.
use queueway.Base.{
  ℕ, ◌+◌, ◌*◌, String, Bool, ◌||◌, List, [], ◌∷◌, ◌++◌, Option, none, some, is_some, ltb, length,
  if◌then◌else◌, Exec, ok, err, unreachable, duplicate,
}
use queueway.Store.Table.{find, rewrite, without}

pub record AuthUser : Type 0 where
  pub id : String
  pub email : String
  pub password_hash : String
  pub created_at : ℕ

-- A row of `queueway_sessions` or of `queueway_password_resets`.
pub record Token : Type 0 where
  pub token : String
  pub user_id : String
  pub created_at : ℕ
  pub expires_at : ℕ

pub record AuthStore : Type 0 where
  pub online : Bool
  pub now : ℕ
  pub users : List AuthUser
  pub sessions : List Token
  pub resets : List Token

abbrev pub by_id : AuthUser → String
by_id u = u.id

abbrev pub by_email : AuthUser → String
by_email u = u.email

abbrev pub by_token : Token → String
by_token t = t.token

-- A statement against the file, which rejects while the file cannot be reached.
abbrev pub query : {A : Type 0} → Exec AuthStore A → Exec AuthStore A
query m s = if s.online then m s else (err unreachable, s)

unfoldable pub has_any_user : Exec AuthStore Bool
has_any_user = query (λ s. (ok (ltb 0 (length s.users)), s))

-- `normalize` is JavaScript's `email.toLowerCase().trim()`.
module _ (normalize : String → String) where
  -- The id is the primary key, and the email is unique.
  unfoldable pub create_user : String → String → String → Exec AuthStore AuthUser
  create_user id email password_hash = query (λ s.
      let user : AuthUser = record {
        id = id;
        email = normalize email;
        password_hash = password_hash;
        created_at = s.now;
      } in
      if is_some (find by_id id s.users) || is_some (find by_email (normalize email) s.users)
      then (err duplicate, s)
      else (ok user, record s { users = s.users ++ user ∷ [] }))

  unfoldable pub find_user_by_email : String → Exec AuthStore (Option AuthUser)
  find_user_by_email email = query (λ s. (ok (find by_email (normalize email) s.users), s))

unfoldable pub find_user_by_id : String → Exec AuthStore (Option AuthUser)
find_user_by_id id = query (λ s. (ok (find by_id id s.users), s))

abbrev pub with_password : String → AuthUser → AuthUser
with_password password_hash u = record u { password_hash = password_hash }

unfoldable pub update_password : String → String → Exec AuthStore (Unit {0})
update_password user_id password_hash =
    query (λ s.
      (ok tt, record s { users = rewrite by_id user_id (with_password password_hash) s.users }))

abbrev pub new_token : String → String → ℕ → ℕ → Token
new_token token user_id now ttl = record {
  token = token;
  user_id = user_id;
  created_at = now;
  expires_at = now + ttl;
}

abbrev pub day : ℕ
day = 24 * 60 * 60 * 1000

abbrev pub minute : ℕ
minute = 60 * 1000

unfoldable pub create_session : String → String → ℕ → Exec AuthStore String
create_session token user_id ttl_days = query (λ s.
    if is_some (find by_token token s.sessions) then (err duplicate, s) else (
      ok token,
      record s { sessions = s.sessions ++ new_token token user_id s.now (ttl_days * day) ∷ [] },
    ))

-- `new Date(row.expires_at).getTime() < Date.now()`
abbrev pub has_expired : ℕ → Token → Bool
has_expired now t = ltb t.expires_at now

abbrev pub session_owner : Option Token → Exec AuthStore (Option AuthUser)
session_owner none s = (ok none, s)
session_owner (some t) s = if has_expired s.now t then (ok none, s) else find_user_by_id t.user_id s

unfoldable pub find_session_user : String → Exec AuthStore (Option AuthUser)
find_session_user token = query (λ s. session_owner (find by_token token s.sessions) s)

unfoldable pub delete_session : String → Exec AuthStore (Unit {0})
delete_session token =
    query (λ s. (ok tt, record s { sessions = without by_token token s.sessions }))

unfoldable pub create_password_reset : String → String → ℕ → Exec AuthStore String
create_password_reset token user_id ttl_minutes = query (λ s.
    if is_some (find by_token token s.resets) then (err duplicate, s) else (
      ok token,
      record s { resets = s.resets ++ new_token token user_id s.now (ttl_minutes * minute) ∷ [] },
    ))

-- `deletes` is whether the DELETE succeeds: its error is ignored, and then the row stays.
abbrev pub consumed : (deletes : Bool) → String → Option Token → Exec AuthStore (Option String)
consumed deletes token none s = (ok none, s)
consumed deletes token (some t) s = (
  ok (if has_expired s.now t then none else some t.user_id),
  if deletes then record s { resets = without by_token token s.resets } else s,
)

unfoldable pub consume_password_reset : (deletes : Bool) → String → Exec AuthStore (Option String)
consume_password_reset deletes token =
    query (λ s. consumed deletes token (find by_token token s.resets) s)
