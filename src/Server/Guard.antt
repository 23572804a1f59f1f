-- ===== src/Server/Guard.antt =====
-- createServer.ts: the guard before the routes under `/queueway`.
use queueway.Base.{
  ◌>>=◌, String, Bool, Result, Option, ok, err, false, some, none, unreachable, if◌then◌else◌,
}
use queueway.Engine.World.{World}

-- What the guard finds for a cookie that names no session of a user that has not ended.
abbrev refusal : Option String → Bool → Result Bool
refusal none online = ok false
refusal (some token) online = if online then ok false else err unreachable
