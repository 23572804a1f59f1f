-- ===== src/Dashboard/Content.antt =====
-- packages/dashboard/src/app/page.tsx: `DashboardContent`, its state and what its requests do to it. The
-- bodies are the answers of the routes under `/queueway`.
use queueway.Base.{
  Bool, true, false, not, ◌||◌, ◌&&◌, String, ◌==◌, Option, none, some, List, [], any, nat_eq,
  if◌then◌else◌,
}
use queueway.Types.{Job, JobStatus, failed, status_name, or_else, ComponentHealth}
use queueway.Engine.Api.{Stats}
use queueway.Monitoring.HealthCheck.{HealthStatus, is_up}
use queueway.Server.Errors.{Answer, stats, jobs, health}
use queueway.Server.Routes.{Call, get_jobs}
use queueway.Dashboard.{FetchResponse, is_ok}
use mathlib.Core.Option

-- `health` is any JSON that the health route answered; no filter is "all".
pub record Content : Type 0 where
  pub stats : Option Stats
  pub jobs : List Job
  pub health : Option Answer
  pub error : Option String
  pub filter : Option JobStatus
  pub retrying : Option String
  pub deleting : Option String
  pub confirm_delete_id : Option String

abbrev pub first_content : Content
first_content = record {
  stats = none;
  jobs = [];
  health = none;
  error = none;
  filter = none;
  retrying = none;
  deleting = none;
  confirm_delete_id = none;
}

-- `jobsUrl`, as the route reads its query.
abbrev pub jobs_url : Option JobStatus → Call
jobs_url filter = get_jobs (Option.map status_name filter) (some 25)

-- How `Promise.all` settles on the three requests: with the message of the error, or with the
-- responses of stats, jobs and health.
pub data Loaded : Type 0 where
  unreached : Option String → Loaded
  answered : (stats jobs health : FetchResponse Answer) → Loaded

abbrev pub stats_in : Option Answer → Option Stats → Option Stats
stats_in (some (stats s)) old = some s
stats_in _ old = old

-- `Array.isArray(jobsBody) ? jobsBody : []`
abbrev pub jobs_in : Option Answer → List Job
jobs_in (some (jobs js)) = js
jobs_in _ = []

abbrev pub health_in : Option Answer → Option Answer → Option Answer
health_in none old = old
health_in (some body) old = some body

-- The body of a response that is ok, else `null`.
abbrev pub body_if_ok : FetchResponse Answer → Option Answer
body_if_ok r = if is_ok r then r.body else none

abbrev pub is_expired : FetchResponse Answer → Bool
is_expired r = nat_eq r.status 401

abbrev pub store_down_text : String
store_down_text =
    "The database or broker is unreachable. Queueway is retrying — job data will reappear once it is back."

abbrev pub show_answers : (stats jobs health : FetchResponse Answer) → Content → Content
show_answers s j h c = record c {
  health = health_in h.body c.health;
  stats = stats_in (body_if_ok s) c.stats;
  jobs = jobs_in (body_if_ok j);
  error = if not (is_ok s) || not (is_ok j) then some store_down_text else none;
}

-- `refresh`: whether it calls `onLogout`, and what it leaves.
unfoldable pub refresh : Loaded → Content → Bool × Content
refresh (unreached message) c =
    (false, record c { error = some (or_else message "Could not reach Queueway API") })
refresh (answered s j h) c =
    if is_expired s || is_expired j || is_expired h
    then (true, c)
    else (false, show_answers s j h c)

unfoldable pub set_filter : Option JobStatus → Content → Content
set_filter f c = record c { filter = f }

-- `handleRetry` up to its request, and from its answer on: a request that fails skips the refresh.
unfoldable pub begin_retry : String → Content → Content
begin_retry id c = record c { retrying = some id }

abbrev refresh_after : Option Loaded → Content → Bool × Content
refresh_after none c = (false, c)
refresh_after (some loaded) c = refresh loaded c

abbrev pub retried : Bool × Content → Bool × Content
retried (out, c) = (out, record c { retrying = none })

unfoldable pub end_retry : Option Loaded → Content → Bool × Content
end_retry loaded c = retried (refresh_after loaded c)

-- `handleDelete`, likewise.
unfoldable pub begin_delete : String → Content → Content
begin_delete id c = record c { deleting = some id }

abbrev pub deleted_job : Bool × Content → Bool × Content
deleted_job (out, c) = (out, record c { deleting = none; confirm_delete_id = none })

unfoldable pub end_delete : Option Loaded → Content → Bool × Content
end_delete loaded c = deleted_job (refresh_after loaded c)

abbrev pub may_retry : JobStatus → Bool
may_retry failed = true
may_retry _ = false

abbrev pub is_the : Option String → String → Bool
is_the none id = false
is_the (some x) id = x == id

-- A row has a Retry button only for a failed job; the buttons are disabled while their request runs.
unfoldable pub offers_retry : String → Content → Bool
offers_retry id c =
    any (λ job. job.id == id && may_retry job.status && not (is_the c.retrying id)) c.jobs

unfoldable pub offers_delete : String → Content → Bool
offers_delete id c = any (λ job. job.id == id && not (is_the c.deleting id)) c.jobs

-- The three cards of the health report.
pub data Component : Type 0 where
  broker database api : Component

abbrev component_of : Component → HealthStatus → ComponentHealth
component_of broker h = h.broker
component_of database h = h.database
component_of api h = h.api

abbrev pub shown_component : Component → Option Answer → Option ComponentHealth
shown_component key (some (health h)) = some (component_of key h)
shown_component key _ = none

abbrev shows_up : Option ComponentHealth → Bool
shows_up none = false
shows_up (some c) = is_up c.status

-- `isUp` of a card: without a report a component counts as down.
unfoldable pub card_is_up : Component → Content → Bool
card_is_up key c = shows_up (shown_component key c.health)

-- `BROKER_STORE_LABELS[c.type] ?? c.type`
unfoldable pub type_label : String → String
type_label t =
    if t == "in-memory"
    then "In-Memory"
    else if t == "redis"
    then "Redis"
    else if t == "rabbitmq"
    then "RabbitMQ"
    else if t == "sqlite"
    then "SQLite"
    else if t == "postgres"
    then "PostgreSQL"
    else t

-- `copyToClipboard`: the clipboard's own interface is there only in a secure context; `command` is
-- what the old way returns, `none` where it throws.
unfoldable pub copy_to_clipboard : (secure writes : Bool) → (command : Option Bool) → Bool
copy_to_clipboard secure writes command = secure && writes || or_else command false
