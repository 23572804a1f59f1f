-- ===== src/Tests/Pages.antt =====
-- The dashboard, and the brokers behind it, at concrete runs.
use queueway.Broker.Redis.Reports.{rounds-Balanced, Balanced}
use queueway.Base.{
  chars, chars, All, ok, some, none, Option, Error, ◌≡◌, ◌≢◌, ◌↔◌, refl, [], ◌∷◌, true, false, List,
}
use queueway.Types.{failed}
use queueway.Dashboard.Content.{offers_delete, Content, first_content}
use queueway.Dashboard.Confirmed.{
  react, react_all, PageEvent, delete_clicked, delete_confirmed, dialog_closed, deletes, confirms,
  deletes_confirmed,
}
use queueway.Engine.Api.{no_counts, Stats}
use queueway.Server.Routes.{Site}
use queueway.Broker.RabbitMq.Topology.{
  subscribe_all, work, consume, Refusal, empty_channel, ChannelCommand, open_channel,
}
use queueway.Tests.Deliveries.Setup.{unreachable_world, start, done, saved}
use queueway.Auth.Routes.{Request}
use queueway.Broker.Redis.Polling.{
  Poll, garbled, polled, is_connection_error, failed as failed_line, paused, resumed, round, rounds,
  Loop,
}
use queueway.Engine.World.{World}
use queueway.Server.Errors.{Fault}
use queueway.Store.Sqlite.{SqliteStore}
use queueway.Store.Memory.{InMemoryStore}
use queueway.Broker.RabbitMq.Wiring.{open_channel-Safe}
use queueway.Broker.RabbitMq.Order.{Has, Safe}
use queueway.Broker.Redis.{brpop}
use queueway.Monitoring.HealthCheck.{component_up, HealthStatus}
use queueway.Dashboard.Table.{table_offers, table_body, enables, IsListed}

abbrev shows_one : Content
shows_one = record first_content { jobs = saved ∷ [] }

abbrev deletion : List PageEvent
deletion = delete_clicked "a" ∷ delete_confirmed ∷ dialog_closed ∷ []

deletes_confirmed_example : confirms "a" false deletion ≡ true
unfolding react_all react offers_delete
deletes_confirmed_example = deletes_confirmed "a" deletion shows_one refl refl

-- A dialog that was closed sends nothing.
closed_dialog_test :
    deletes "a"
      (react_all
        (delete_clicked "a" ∷ dialog_closed ∷ delete_confirmed ∷ [])
        (record { content = shows_one; sent = [] })).sent
    ≡ false
unfolding react_all react offers_delete
closed_dialog_test = refl

abbrev visitor : Request
visitor = record { email = none; password = none; token = none; cookie = some "t1"; base_url = "" }

abbrev site : Site InMemoryStore
site = record {
  accounts = record {
    online = true;
    now = 1000;
    users = record { id = "u1"; email = "ann@x.io"; password_hash = "s"; created_at = 5 } ∷ [];
    sessions = record { token = "t1"; user_id = "u1"; created_at = 0; expires_at = 9000 } ∷ [];
    resets = [];
  };
  world = start;
}

abbrev all_up : World InMemoryStore → HealthStatus
all_up w = record {
  healthy = true;
  broker = component_up;
  database = component_up;
  api = component_up;
}

abbrev plain : Error → Fault
plain e = record { code = none; message = none; nested_code = none }

abbrev one_pending : Stats
one_pending = record { jobs = record no_counts { pending = 1 }; total = 1 }

abbrev away : Site SqliteStore
away = record { accounts = site.accounts; world = unreachable_world }

abbrev all_up_there : World SqliteStore → HealthStatus
all_up_there w = record {
  healthy = false;
  broker = component_up;
  database = component_up;
  api = component_up;
}

-- RabbitMQ refuses nothing.
abbrev accepts : List ChannelCommand → ChannelCommand → Option Refusal
accepts _ x = none

open_channel-Safe_example :
    let (r, c) = open_channel accepts 10 ("email" ∷ "sms" ∷ []) empty_channel in
    Safe 10 c.done
    × (r ≡ ok tt
        → All (λ e. Has (consume (work e)) c.done) ("email" ∷ "sms" ∷ [])
          × Safe 10 (subscribe_all accepts ("fax" ∷ []) c).done)
open_channel-Safe_example = open_channel-Safe accepts 10 ("email" ∷ "sms" ∷ []) ("fax" ∷ [])

abbrev first_loop : Loop InMemoryStore
first_loop = record {
  world = record start { accepting = false };
  outage_logged = false;
  lines = [];
  paused_ms = 0;
}

-- Redis is away for two rounds, and then back.
abbrev outage : List ((World InMemoryStore → World InMemoryStore) × Poll)
outage =
    (λ w. w, polled)
    ∷ (λ w. w, polled)
    ∷ (λ w. record w { accepting = true }, polled)
    ∷ (λ w. w, garbled (record { name = some "SyntaxError"; code = none; message = none }))
    ∷ []

rounds-Balanced_example :
    let l = rounds (λ e. false) "email" done outage first_loop in Balanced l.outage_logged l.lines
rounds-Balanced_example = rounds-Balanced (λ e. false) "email" done outage first_loop refl

outage_lines_test :
    (rounds (λ e. false) "email" done outage first_loop).lines ≡ failed_line ∷ resumed ∷ paused ∷ []
unfolding rounds round brpop is_connection_error chars
outage_lines_test = refl

abbrev shows_failed : Content
shows_failed = record first_content { jobs = record saved { status = failed } ∷ [] }

table_offers_example :
    ((enables (λ r. r.retry) "a" (table_body (λ s. s) shows_failed) ≡ true)
      ↔ IsListed
          (λ job. (job.id ≡ "a") × (job.status ≡ failed) × (shows_failed.retrying ≢ some "a"))
          shows_failed.jobs)
    × ((enables (λ r. r.delete) "a" (table_body (λ s. s) shows_failed) ≡ true)
        ↔ IsListed (λ job. (job.id ≡ "a") × (shows_failed.deleting ≢ some "a")) shows_failed.jobs)
table_offers_example = table_offers (λ s. s) shows_failed "a"
