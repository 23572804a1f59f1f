-- ===== src/Server/Routes.antt =====
-- createServer.ts: the routes under `/queueway`.
use queueway.Engine.Api
use queueway.Base.{
  ◌>>◌, if◌then◌else◌, ℕ, Bool, String, Exec, Option, Result, pure, Error, some, none, false, true,
  err, ok,
}
use queueway.Auth.Accounts.{AuthStore}
use queueway.Store.Contract.{IStore}
use queueway.Server.Errors.{
  deleted, reset_to_pending, one_job, jobs, stats, health, async_route, problem, Fault, reply,
  HttpReply, Answer,
}
use queueway.Monitoring.HealthCheck.{HealthStatus}
use queueway.Types.{Job}
use queueway.Engine.World.{World}
use queueway.Engine.Delivery.{Handler}
use queueway.Auth.Routes.{require_auth, Request}

-- A request that reached a route: its parameters and query.
pub data Call : Type 0 where
  get_health get_stats : Call
  get_jobs : Option String → Option ℕ → Call
  get_job : String → Call
  get_dlq : Option ℕ → Call
  post_retry delete_job : String → Call

abbrev pub answer_with : {A : Type 0} {W : Type 0} → (A → Answer) → Result A → Exec W HttpReply
answer_with f (ok a) w = (ok (reply 200 (f a)), w)
answer_with f (err e) w = (err e, w)

abbrev pub answer_found :
    {W : Type 0} → Result (Option Job) → (Job → Exec W HttpReply) → Exec W HttpReply
answer_found (ok none) f w = (ok (reply 404 (problem "Job not found")), w)
answer_found (ok (some job)) f w = f job w
answer_found (err e) f w = (err e, w)

abbrev pub answer_health : HealthStatus → HttpReply
answer_health h = reply (if h.healthy then 200 else 503) (health h)

module _ {S : Type 0} (store : IStore S) (publish : String → Handler S) (fault : Error → Fault)
    (report : World S → HealthStatus) where
  unfoldable pub route : Call → World S → HttpReply × World S
  route get_health w = (answer_health (report w), w)
  route get_stats w = async_route fault (answer_with stats (Api.get_stats store w)) w
  route (get_jobs status limit) w =
      async_route fault (answer_with jobs (Api.get_jobs store status limit w)) w
  route (get_job id) w =
      async_route fault
        (answer_found (Api.get_job store id w) (λ job. pure (reply 200 (one_job job)))) w
  route (get_dlq limit) w = async_route fault (answer_with jobs (Api.get_dlq store limit w)) w
  route (post_retry id) w =
      async_route fault (do Api.retry_job store publish id; pure (reply 200 (reset_to_pending id)))
        w
  route (delete_job id) w =
      async_route fault
        (answer_found (Api.get_job store id w)
          (λ job. do Api.delete_job store id; pure (reply 200 (deleted id))))
        w

-- The server: the login storage, and the engine's world.
pub record Site (S : Type 0) : Type 0 where
  pub accounts : AuthStore
  pub world : World S

abbrev pub after_route : {S : Type 0} → AuthStore → HttpReply × World S → Option HttpReply × Site S
after_route accounts (r, w) = (some r, record { accounts = accounts; world = w })

-- `app.use("/queueway", requireAuth(authStore))`. A guard that rejects leaves the request unanswered.
abbrev pub guarded :
    {S : Type 0}
    → Result Bool × AuthStore
    → World S
    → (World S → HttpReply × World S)
    → Option HttpReply × Site S
guarded (ok true, accounts) w f = after_route accounts (f w)
guarded (ok false, accounts) w f =
    (some (reply 401 (problem "Not logged in")), record { accounts = accounts; world = w })
guarded (err e, accounts) w f = (none, record { accounts = accounts; world = w })

unfoldable pub serve :
    {S : Type 0}
    → IStore S
    → (String → Handler S)
    → (Error → Fault)
    → (World S → HealthStatus)
    → Request
    → Call
    → Site S
    → Option HttpReply × Site S
serve store publish fault report req call site =
    guarded (require_auth req site.accounts) site.world (route store publish fault report call)
