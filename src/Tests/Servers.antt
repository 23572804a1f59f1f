-- ===== src/Tests/Servers.antt =====
-- The HTTP API, the health report and the watchdog at concrete runs.
use queueway.Broker.RabbitMq.Reconnects.{
  reconnect_replays, channel_lost, Event, run-recovers, recovers, step, timer, run,
}
use queueway.Broker.RabbitMq.{
  timer_fired, report_outage, schedule_reconnect, force_reconnect, channel_closed, RabbitMqBroker,
  refused, subscribe, complete, connect,
}
use queueway.Monitoring.Watchdog.Restarts.{rest, IsSound, crash, next, Run-IsSound, Run}
use queueway.Server.Routes.{Site, route, post_retry, delete_job, get_job}
use queueway.Monitoring.Watchdog.{signalled, exits, shutdown, on_exit, launched, Watchdog}
use queueway.Base.{includes, List, some, chars, Error, ◌≡◌, arith, [], ◌∷◌, refl, true, false, none}
use queueway.Monitoring.HealthCheck.{HealthStatus, component_up}
use queueway.Auth.Routes.{Request}
use queueway.Engine.World.{enqueue, World}
use queueway.Server.Errors.{problem, reply, Fault, is_unreachable}
use queueway.Store.Memory.{InMemoryStore, in_memory_store}
use queueway.Tests.Deliveries.Setup.{found_in, is_online, contract, start}
use queueway.Server.Answers.{missing_job_answers}

abbrev first_crash : Watchdog
first_crash = on_exit 5000 crash (launched true 0)

abbrev restarted : Run (launched true 0) (shutdown first_crash)
unfolding launched
restarted = next 5000 (exits crash refl) (next 5500 signalled rest)

Run-IsSound_example : IsSound (shutdown first_crash)
unfolding launched
Run-IsSound_example = Run-IsSound restarted (omega arith, refl)

abbrev no_code : Error → Fault
no_code e = record { code = none; message = some "Job not found"; nested_code = none }

abbrev away : Error → Fault
away e = record { code = some "ECONNREFUSED"; message = none; nested_code = none }

abbrev nobody : Request
nobody = record { email = none; password = none; token = none; cookie = none; base_url = "" }

abbrev closed_site : Site InMemoryStore
closed_site = record {
  accounts = record { online = true; now = 0; users = []; sessions = []; resets = [] };
  world = start;
}

abbrev report : {S : Type 0} → World S → HealthStatus
report w = record {
  healthy = true;
  broker = component_up;
  database = component_up;
  api = component_up;
}

-- The session of the cookie has ended.
abbrev late_visitor : Request
late_visitor = record nobody { cookie = some "t1" }

abbrev late_site : Site InMemoryStore
late_site = record closed_site {
  accounts = record {
    online = true;
    now = 1000;
    users = [];
    sessions = record { token = "t1"; user_id = "u1"; created_at = 0; expires_at = 500 } ∷ [];
    resets = [];
  };
}

missing_job_answers_example :
    let answer = reply 404 (problem "Job not found") in
    let run = route in_memory_store enqueue no_code report in
    (run (get_job "z") start ≡ (answer, start))
    × (run (delete_job "z") start ≡ (answer, start))
    × (run (post_retry "z") start ≡ (reply 500 (problem "Internal server error"), start))
unfolding is_unreachable chars
missing_job_answers_example =
    missing_job_answers contract enqueue no_code report "z" start (is_online start)
      (found_in start "z" none refl) refl

-- Its channel is lost, an attempt is refused, and the next one succeeds.
abbrev rabbit : RabbitMqBroker
rabbit = record {
  connection = true;
  channel = true;
  subscriptions = [];
  consumer_tags = [];
  reconnect_timer = none;
  reconnect_attempt = 0;
  shutting_down = false;
  outage_logged = false;
}

abbrev outage : List Event
outage = channel_lost ∷ timer refused ∷ []

run-recovers_example : recovers (run (λ d. d) outage rabbit) ≡ true
run-recovers_example = run-recovers (λ d. d) outage rabbit refl

reconnect_replays_example :
    let back =
      timer_fired (λ d. d) complete (run (λ d. d) outage (subscribe true "email" rabbit)) in
    (back.channel ≡ true)
    × (back.reconnect_attempt ≡ 0)
    × (includes "email" back.consumer_tags ≡ true)
unfolding run step subscribe channel_closed force_reconnect schedule_reconnect report_outage
    timer_fired connect
reconnect_replays_example = reconnect_replays (λ d. d) "email" true outage rabbit refl
