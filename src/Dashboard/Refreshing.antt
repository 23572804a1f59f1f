-- ===== src/Dashboard/Refreshing.antt =====
-- packages/dashboard/src/app/page.tsx over packages/core/src/server/createServer.ts: what the page shows
-- of the engine that answers its requests.
use queueway.Base.{
  arith, refl, ◌≡◌, Bool, true, false, String, Option, none, some, [], Error, ok, err,
}
use queueway.Types.{status_name}
use queueway.Engine.Api
use queueway.Engine.Api.{Stats}
use queueway.Engine.World.{World}
use queueway.Engine.Delivery.{Handler}
use queueway.Monitoring.HealthCheck.{HealthStatus}
use queueway.Store.Contract.{IStore}
use queueway.Auth.Accounts.{delete_session}
use queueway.Auth.Routes.{Request, require_auth, logout}
use queueway.Server.Errors.{Answer, HttpReply, Fault, health, async_route}
use queueway.Server.Routes.{route, serve, Site, get_stats, get_health}
use queueway.Dashboard.{FetchResponse, arrives}
use queueway.Dashboard.Views.{Page, View, handle_logout}
use queueway.Dashboard.Content.{Content, Loaded, answered, refresh, jobs_url, store_down_text}
use mathlib.Core.Option

abbrev pub delivered : HttpReply → FetchResponse Answer
delivered r = record { status = r.status; body = some r.body }

abbrev pub together : (stats jobs health : Option HttpReply) → Option Loaded
together (some s) (some j) (some h) = some (answered (delivered s) (delivered j) (delivered h))
together _ _ _ = none

-- As long as a request is not answered, `Promise.all` waits and nothing is shown.
abbrev pub refresh_when : Option Loaded → Content → Bool × Content
refresh_when none c = (false, c)
refresh_when (some loaded) c = refresh loaded c

module _ {S : Type 0} (store : IStore S) (publish : String → Handler S) (fault : Error → Fault)
    (report : World S → HealthStatus) (req : Request) (site : Site S) where
  -- The three requests of a refresh, which change nothing on the server.
  unfoldable pub load : Content → Option Loaded
  load c =
      together (serve store publish fault report req get_stats site).0
        (serve store publish fault report req (jobs_url c.filter) site).0
        (serve store publish fault report req get_health site).0

  -- With a session, while the engine cannot list its jobs, a refresh keeps the counts, shows the
  -- health report, no jobs and an error, and stays logged in.
  pub refresh_outage :
      (c : Content) (e e' : Error)
      → (require_auth req site.accounts).0 ≡ ok true
      → Api.get_stats store site.world ≡ err e
      → Api.get_jobs store (Option.map status_name c.filter) (some 25) site.world ≡ err e'
      → refresh_when (load c) c ≡ (
        false,
        record c {
          jobs = [];
          health = some (health (report site.world));
          error = some store_down_text;
        },
      )
  unfolding load serve route async_route refresh
  refresh_outage c e e' a s l = rw (a, s, l) (ground arith)

  -- Once the session is over, a refresh keeps what the page shows and logs out, which on a
  -- reachable login storage leads to the login form.
  pub expired_session_leaves :
      (c : Content) (p : Page)
      → site.accounts.online ≡ true
      → (require_auth req site.accounts).0 ≡ ok false
      → (refresh_when (load c) c ≡ (true, c))
        × (handle_logout (arrives (logout req site.accounts).0) p
            ≡ record p { user_email = none; view = View.login })
  unfolding load serve refresh handle_logout logout delete_session
  expired_session_leaves c p o a = (rw a refl, ground (arith, o))
