-- ===== src/Config.antt =====
-- packages/core/src/config/env.ts and the levels of logging/Logger.ts.
use queueway.Base.{
  ◌&&◌, ltb, is_some, arith, ◌≤◌, leb, not, if◌then◌else◌, Option, ℕ, Bool, String, none, some,
}

-- `process.env`
abbrev pub Environment : Type 0
Environment = String → Option String

-- `process.env[prefixed] ?? process.env[legacy]`
abbrev pub pick : Environment → (prefixed legacy : String) → Option String
pick env prefixed legacy = elim (env prefixed) [ none ↦ env legacy | some value ↦ some value ]

unfoldable pub database_url : Environment → Option String
database_url env = pick env "QUEUEWAY_DATABASE_URL" "DATABASE_URL"

unfoldable pub redis_url : Environment → Option String
redis_url env = pick env "QUEUEWAY_REDIS_URL" "REDIS_URL"

unfoldable pub rabbitmq_url : Environment → Option String
rabbitmq_url env = pick env "QUEUEWAY_RABBITMQ_URL" "RABBITMQ_URL"

unfoldable pub sqlite_path : Environment → Option String
sqlite_path env = pick env "QUEUEWAY_SQLITE_PATH" "SQLITE_PATH"

-- `Number.isInteger(parsed) && parsed > 0 ? parsed : 1`, where a number that is no natural number is
-- `none`.
abbrev pub prefetch_of : Option ℕ → ℕ
prefetch_of none = 1
prefetch_of (some n) = if ltb 0 n then n else 1

-- `number` is JavaScript's `Number`.
unfoldable pub rabbitmq_prefetch : (number : Option String → Option ℕ) → Environment → ℕ
rabbitmq_prefetch number env =
    prefetch_of (number (pick env "QUEUEWAY_RABBITMQ_PREFETCH" "RABBITMQ_PREFETCH"))

unfoldable pub using_legacy_name : Environment → (prefixed legacy : String) → Bool
using_legacy_name env prefixed legacy = not (is_some (env prefixed)) && is_some (env legacy)

pub data LogLevel : Type 0 where
  debug info warn error : LogLevel

abbrev pub level_order : LogLevel → ℕ
level_order debug = 0
level_order info = 1
level_order warn = 2
level_order error = 3

unfoldable pub should_log : (own level : LogLevel) → Bool
should_log own level = leb (level_order own) (level_order level)

-- However it is set, a worker takes at least one message.
prefetch_positive :
    (number : Option String → Option ℕ) (env : Environment) → 1 ≤ rabbitmq_prefetch number env
unfolding rabbitmq_prefetch
prefetch_positive number env = ground arith
