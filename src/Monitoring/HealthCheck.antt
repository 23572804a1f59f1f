-- ===== src/Monitoring/HealthCheck.antt =====
-- packages/core/src/monitoring/HealthCheck.ts. Times are in milliseconds from the start of a report;
-- its timestamp and the texts of errors are left out.
use queueway.Base.{
  arith, leb, ◌&&◌, ◌≡◌, String, if◌then◌else◌, ltb, Option, ◌≤◌, ℕ, Result, Bool, refl, none,
  false, true, err, ok,
}
use queueway.Types.{ComponentHealth, Health, down, up}

abbrev pub component_timeout_ms : ℕ
component_timeout_ms = 3000

-- How a component's own check ends: after some time, or never.
pub data Check : Type 0 where
  settles : ℕ → Result ComponentHealth → Check
  hangs : Check

abbrev pub component_down : ComponentHealth
component_down = record { status = down; kind = none }

abbrev pub component_up : ComponentHealth
component_up = record { status = up; kind = none }

abbrev pub or_down : Result ComponentHealth → ComponentHealth
or_down (ok h) = h
or_down (err e) = component_down

-- `withTimeout`: when it resolves, and with what. The timer that was set first also fires first.
unfoldable pub with_timeout : Check → ℕ × ComponentHealth
with_timeout hangs = (component_timeout_ms, component_down)
with_timeout (settles t r) =
    if ltb t component_timeout_ms then (t, or_down r) else (component_timeout_ms, component_down)

pub record HealthStatus : Type 0 where
  pub healthy : Bool
  pub broker : ComponentHealth
  pub database : ComponentHealth
  pub api : ComponentHealth

abbrev pub is_up : Health → Bool
is_up up = true
is_up down = false

abbrev later : ℕ → ℕ → ℕ
later a b = if leb a b then b else a

-- `getStatus`: when the report is there, and what it says.
unfoldable pub get_status :
    (broker_type store_type : Option String) → Check → Check → ℕ × HealthStatus
get_status broker_type store_type broker store =
    let (t, b) = with_timeout broker in
    let (u, d) = with_timeout store in
    (
      later t u,
      record {
        healthy = is_up b.status && is_up d.status;
        broker = record b { kind = broker_type };
        database = record d { kind = store_type };
        api = component_up;
      },
    )

-- A component counts as up only if its own check says so within the timeout.
abbrev pub answers_up : Check → Bool
answers_up hangs = false
answers_up (settles t (err e)) = false
answers_up (settles t (ok h)) = ltb t component_timeout_ms && is_up h.status

with_timeout_lem :
    (c : Check) → ((with_timeout c).0 ≤ 3000) × (is_up (with_timeout c).1.status ≡ answers_up c)
unfolding with_timeout
with_timeout_lem hangs = (omega arith, refl)
with_timeout_lem (settles t (ok h)) = ground arith
with_timeout_lem (settles t (err e)) = ground arith

-- The health report is there within 3 seconds, says of the broker and of the store whether each
-- reported itself up in less than that time, and is healthy exactly if both did.
pub get_status_lem :
    (broker_type store_type : Option String) (broker store : Check)
    → let (t, r) = get_status broker_type store_type broker store in
      (t ≤ 3000)
      × (is_up r.broker.status ≡ answers_up broker)
      × (is_up r.database.status ≡ answers_up store)
      × (r.healthy ≡ (answers_up broker && answers_up store))
unfolding get_status
get_status_lem broker_type store_type broker store =
    let (b, e) = with_timeout_lem broker in
    let (d, f) = with_timeout_lem store in (ground (arith, b, d), e, f, rw (e, f) refl)
