-- ===== src/Cli/SetupPostgres.antt =====
-- packages/core/src/cli/lib/setupPostgres.ts: getting a PostgreSQL, in the user's own server or in a container.
-- `URL`, `encodeURIComponent` and `decodeURIComponent` are parameters.
pub mod Container
pub mod Menu
use queueway.Base.{
  true, is_some, is_empty, digits, nat_eq, ◌||◌, not, ◌++◌, if◌then◌else◌, [], text_eq, none, false,
  some, ◌∷◌, codes, List, Option, ℕ, Bool,
}
use queueway.Cli.Detect.{Platform}
use queueway.Cli.Machine.{
  end_admin, create_role, alter_role, find_role, create_database, find_database, open_admin,
  send_query, ServiceSpec, random_password, connect_as, Login, Wizard, done, perform, ◌>>=◌, ◌>>◌,
  postgres,
}

pub record Url : Type 0 where
  hostname : List ℕ
  username : List ℕ
  pub password : List ℕ
  pub port : Option ℕ
  pathname : List ℕ

-- Where the setup runs, and what of JavaScript it calls.
pub record Setting : Type 0 where
  pub platform : Platform
  pub desktop : List (List ℕ)
  pub slug : List ℕ
  pub os_user : List ℕ
  pub parse_url : List ℕ → Option Url
  pub encode : List ℕ → List ℕ
  pub decode : List ℕ → Option (List ℕ)
  pub lower : List ℕ → List ℕ

abbrev pub database_key : List ℕ
database_key = codes "QUEUEWAY_DATABASE_URL"

abbrev pub default_pg_port : ℕ
default_pg_port = 5432

-- `name.replace(/q/g, "qq")`
abbrev pub doubled : ℕ → List ℕ → List ℕ
doubled q [] = []
doubled q (c ∷ s) = let rest = doubled q s in if nat_eq c q then c ∷ c ∷ rest else c ∷ rest

abbrev pub quote_ident : List ℕ → List ℕ
quote_ident name = 34 ∷ doubled 34 name ++ 34 ∷ []

abbrev pub quote_literal : List ℕ → List ℕ
quote_literal value = 39 ∷ doubled 39 value ++ 39 ∷ []

abbrev pub can_connect : Login → Wizard Bool
can_connect login = do failure ← perform (connect_as login); done (not (is_some failure))

abbrev pub admin_login : List ℕ × Option (List ℕ) → Login
admin_login (user, password) = record {
  port = default_pg_port;
  user = user;
  password = password;
  database = codes "postgres";
}

abbrev pub try_candidates :
    List (List ℕ × Option (List ℕ)) → Wizard (Option (List ℕ × Option (List ℕ)))
try_candidates [] = done none
try_candidates (c ∷ cs) = do
  fine ← can_connect (admin_login c)
  if fine then done (some c) else try_candidates cs

abbrev pub candidates : Setting → List (List ℕ × Option (List ℕ))
candidates s =
    (s.os_user, none) ∷ (codes "postgres", none) ∷ (codes "postgres", some (codes "postgres")) ∷ []

unfoldable pub find_admin_silently : Setting → Wizard (Option (List ℕ × Option (List ℕ)))
find_admin_silently s = try_candidates (candidates s)

abbrev pub owned_name : Setting → List ℕ
owned_name s = codes "queueway_" ++ s.slug

-- The connection string of a login of ours on this machine.
abbrev pub url_for : Setting → List ℕ → List ℕ → ℕ → List ℕ → List ℕ
url_for s user password port database =
    codes "postgres://"
    ++ user
    ++ 58 ∷ s.encode password
    ++ codes "@localhost:"
    ++ digits 5 port
    ++ 47 ∷ database

abbrev pub database_by : List ℕ → Option Bool → Wizard Bool
database_by name none = done false
database_by name (some true) = done true
database_by name (some false) = do
  created ← perform (send_query (create_database (quote_ident name) (quote_ident name)))
  done (is_some created)

abbrev pub find_our_database : List ℕ → Option Bool → Wizard Bool
find_our_database name none = done false
find_our_database name (some rows) = do
  found ← perform (send_query (find_database name))
  database_by name found

abbrev pub role_by : List ℕ → List ℕ → Option Bool → Wizard Bool
role_by name password none = done false
role_by name password (some true) = do
  altered ← perform (send_query (alter_role (quote_ident name) (quote_literal password)))
  find_our_database name altered
role_by name password (some false) = do
  created ← perform (send_query (create_role (quote_ident name) (quote_literal password)))
  find_our_database name created

-- The result is `none` where it rejects.
unfoldable pub provision_in_existing : Setting → List ℕ × Option (List ℕ) → Wizard (Option (List ℕ))
provision_in_existing s admin = do
  password ← perform random_password
  opened ← perform (open_admin (admin_login admin))
  if not opened then done none else (do
    found ← perform (send_query (find_role (owned_name s)))
    fine ← role_by (owned_name s) password found
    perform end_admin
    done (
        if fine
        then some (url_for s (owned_name s) password default_pg_port (owned_name s))
        else none))

-- A string that is there and not empty.
abbrev pub truthy : Option (List ℕ) → Option (List ℕ)
truthy none = none
truthy (some []) = none
truthy (some (c ∷ s)) = some (c ∷ s)

abbrev pub is_local : List ℕ → Bool
is_local host = text_eq host (codes "localhost") || text_eq host (codes "127.0.0.1")

abbrev pub without_slash : List ℕ → List ℕ
without_slash [] = []
without_slash (c ∷ s) = if nat_eq c 47 then s else c ∷ s

abbrev pub port_or_default : Option ℕ → ℕ
port_or_default none = default_pg_port
port_or_default (some port) = port

abbrev pub spec_of_parts : Url → Option (List ℕ) → Option (List ℕ) → Option ServiceSpec
spec_of_parts url (some user) (some password) = some (record {
  name = postgres;
  port = port_or_default url.port;
  extra_port = none;
  user = some user;
  password = some password;
  database = some (without_slash url.pathname);
})
spec_of_parts url _ _ = none

abbrev pub spec_of_parsed : Setting → Option Url → Option ServiceSpec
spec_of_parsed s none = none
spec_of_parsed s (some url) =
    if not (is_local url.hostname)
    then none
    else if is_empty url.username || is_empty url.password
    then none
    else spec_of_parts url (s.decode url.username) (s.decode url.password)

unfoldable pub spec_from_url : Setting → List ℕ → Option ServiceSpec
spec_from_url s url = spec_of_parsed s (s.parse_url url)
