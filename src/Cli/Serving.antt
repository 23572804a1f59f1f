-- ===== src/Cli/Serving.antt =====
-- packages/core/src/cli/server-bootstrap.ts, the child process that the watchdog starts, and
-- cli/commands/health.ts.
use queueway.Base.{
  ◌≡◌, refl, ℕ, Bool, ◌||◌, String, Option, none, some, Result, ok, err, Error, nat_eq,
  if◌then◌else◌,
}
use queueway.Types.{or_else, Health}
use queueway.Store.Contract.{IStore}
use queueway.Engine.Api.{Stats}
use queueway.Engine.Delivery.{Handler}
use queueway.Engine.Lifecycle.{Settings, Drivers, JobFiles, Runtime, start_with_server}
use queueway.Engine.World.{BrokerTraits, World}
use queueway.Monitoring.Watchdog.{Exit}
use queueway.Monitoring.HealthCheck.{HealthStatus}
use queueway.Auth.Routes.{Request, require_auth}
use queueway.Server.Errors.{Answer, HttpReply, Fault, stats, health}
use queueway.Server.Routes.{serve, Site, get_stats, get_health}

-- What `require` of the configuration's path comes to: `none` where it throws.
unfoldable pub boot_config : Option (Option Settings) → Option Settings
boot_config none =
    some (record { broker = some "in-memory"; store = some "in-memory"; retry = none })
boot_config (some loaded) = loaded

-- `Number(process.env.QUEUEWAY_PORT || 4287)`
abbrev pub boot_port : Option ℕ → ℕ
boot_port port = or_else port 4287

-- The process goes on, or ends with a code.
pub data Boot : Type 0 where
  serving : ℕ → Boot
  exited : ℕ → Boot

abbrev pub booted : {S : Type 0} → ℕ → Result (Unit {0}) × Runtime S → Boot × Runtime S
booted port (ok _, r) = (serving port, r)
booted port (err e, r) = (exited 1, r)

abbrev pub boot_with :
    {S : Type 0}
    → ℕ
    → Option Settings
    → (Settings → Result (Unit {0}) × Runtime S)
    → Runtime S
    → Boot × Runtime S
boot_with port none start r = (exited 1, r)
boot_with port (some config) start r = booted port (start config)

-- `main`: the drivers of an engine with that configuration, and whether the server gets its port.
unfoldable pub boot :
    {S : Type 0}
    → (Settings → IStore S)
    → (Settings → String → Handler S)
    → (Settings → BrokerTraits)
    → Drivers
    → JobFiles
    → (listens : Bool) → Option (Option Settings)
    → Option ℕ
    → Runtime S
    → Boot × Runtime S
boot store publish traits d files listens config port r =
    boot_with (boot_port port) (boot_config config)
      (λ c. start_with_server (store c) (publish c) (traits c) d files listens r) r

-- `uncaughtException` and `unhandledRejection`.
abbrev pub crashed : Boot
crashed = exited 1

-- What the watchdog sees of a process that ended by itself.
abbrev pub exit_of : ℕ → Exit
exit_of code = record { code = some code; signal = none }

-- What a request of the command comes back with: a status, and its JSON if it is JSON.
pub record CommandResponse : Type 0 where
  pub status : ℕ
  pub json : Option Answer

pub record Summary : Type 0 where
  pub status : Option Bool
  pub broker : Option Health
  pub database : Option Health
  pub counts : Option Stats

pub data Report : Type 0 where
  login_required : Report
  summary : Summary → Report
  not_reached : Report

abbrev pub counts_in : Answer → Option Stats
counts_in (stats s) = some s
counts_in _ = none

abbrev pub summary_of : Answer → Answer → Summary
summary_of (health h) s = record {
  status = some h.healthy;
  broker = some h.broker.status;
  database = some h.database.status;
  counts = counts_in s;
}
summary_of _ s = record { status = none; broker = none; database = none; counts = counts_in s }

abbrev pub read_both : Option Answer → Option Answer → Report × ℕ
read_both (some h) (some s) = (summary (summary_of h s), 0)
read_both _ _ = (not_reached, 1)

-- `health`: what it prints, and the exit code of the process. `none` is a `Promise.all` that rejects.
unfoldable pub health_command : Option (CommandResponse × CommandResponse) → Report × ℕ
health_command none = (not_reached, 1)
health_command (some (h, s)) =
    if nat_eq h.status 401 || nat_eq s.status 401
    then (login_required, 0)
    else read_both h.json s.json

abbrev pub fetched : HttpReply → CommandResponse
fetched r = record { status = r.status; json = some r.body }

abbrev pub both : Option HttpReply → Option HttpReply → Option (CommandResponse × CommandResponse)
both (some h) (some s) = some (fetched h, fetched s)
both _ _ = none

-- The command sends no cookie, so that a server that runs always asks it for a login, and it exits
-- with 0; it never prints the report.
health_command_locked :
    {S : Type 0} (store : IStore S) (publish : String → Handler S) (fault : Error → Fault)
    (report : World S → HealthStatus) (req : Request) (site : Site S)
    → req.cookie ≡ none
    → health_command (
        both
          (serve store publish fault report req get_health site).0
          (serve store publish fault report req get_stats site).0)
      ≡ (login_required, 0)
unfolding health_command serve require_auth
health_command_locked store publish fault report req site c = rw c refl
