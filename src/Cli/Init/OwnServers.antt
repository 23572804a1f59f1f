-- ===== src/Cli/Init/OwnServers.antt =====
-- Using a PostgreSQL of the user's own keeps the rules of `queueway init`.
use queueway.Base.{is_some, not, ◌≡◌, List, Bool, ℕ, Option, true, false, none, some, ◌∷◌}
use queueway.Cli.Machine.{
  find_role, create_role, random_password, ask_admin, find_database, alter_role, open_admin,
  connect_as, send_query,
}
use queueway.Cli.Machine.Runs.{called, Event}
use queueway.Cli.Init.Rules.{Asks, sound}
use queueway.Cli.SetupPostgres.{
  candidates, owned_name, quote_literal, quote_ident, admin_login, role_by, find_our_database,
  database_by, find_admin_silently, provision_in_existing, Setting,
}
use queueway.Cli.SetupPostgres.Menu.{with_admin}
use queueway.Cli.Init.Steps.{split, try_candidates-Asks, go_on}

module _ (s : Setting) (d : Bool) where
  database_by-Asks :
      (name : List ℕ) (found : Option Bool) (h : List Event)
      → sound d h ≡ true
      → Asks s.slug d h (database_by name found)
  database_by-Asks name none h e = e
  database_by-Asks name (some true) h e = e
  database_by-Asks name (some false) h e = (tt, λ r. e)

  find_our_database-Asks :
      (name : List ℕ) (found : Option Bool) (h : List Event)
      → sound d h ≡ true
      → Asks s.slug d h (find_our_database name found)
  find_our_database-Asks name none h e = e
  find_our_database-Asks name (some rows) h e =
      (tt, λ r. database_by-Asks name r (called (send_query (find_database name)) r ∷ h) e)

  role_by-Asks :
      (name password : List ℕ) (found : Option Bool) (h : List Event)
      → sound d h ≡ true
      → Asks s.slug d h (role_by name password found)
  role_by-Asks name password none h e = e
  role_by-Asks name password (some true) h e = (
    tt,
    λ r.
        find_our_database-Asks name r
          (called (send_query (alter_role (quote_ident name) (quote_literal password))) r ∷ h) e,
  )
  role_by-Asks name password (some false) h e = (
    tt,
    λ r.
        find_our_database-Asks name r
          (called (send_query (create_role (quote_ident name) (quote_literal password))) r ∷ h) e,
  )

  provision_in_existing-Asks :
      (admin : List ℕ × Option (List ℕ)) (h : List Event)
      → sound d h ≡ true
      → Asks s.slug d h (provision_in_existing s admin)
  unfolding provision_in_existing
  provision_in_existing-Asks admin h e = (
    tt,
    λ password. (
      tt,
      λ opened.
          split s.slug d
            (called (open_admin (admin_login admin)) opened ∷ called random_password password ∷ h)
            (not opened) _ _ e
            (
              tt,
              λ found.
                  go_on s.slug d _ (role_by (owned_name s) password found) _
                    (role_by-Asks (owned_name s) password found
                      (called (send_query (find_role (owned_name s))) found
                        ∷ called (open_admin (admin_login admin)) opened
                        ∷ called random_password password
                        ∷ h)
                      e)
                    (λ h fine e. (tt, λ r. e)),
            ),
    ),
  )

  pub with_admin-Asks :
      (admin : Option (List ℕ × Option (List ℕ))) (h : List Event)
      → sound d h ≡ true
      → Asks s.slug d h (with_admin s admin)
  with_admin-Asks (some admin) h e = provision_in_existing-Asks admin h e
  with_admin-Asks none h e = (
    tt,
    λ a. (
      tt,
      λ failure.
          split s.slug d
            (called (connect_as (admin_login (a.0, some a.1))) failure ∷ called ask_admin a ∷ h)
            (not (not (is_some failure))) _ _ e
            (provision_in_existing-Asks (a.0, some a.1)
              (called (connect_as (admin_login (a.0, some a.1))) failure ∷ called ask_admin a ∷ h)
              e),
    ),
  )

  pub find_admin-Asks :
      (h : List Event) → sound d h ≡ true → Asks s.slug d h (find_admin_silently s)
  unfolding find_admin_silently
  find_admin-Asks h e = try_candidates-Asks s.slug d (candidates s) h e
