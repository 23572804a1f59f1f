-- ===== src/Server/Errors.antt =====
-- createServer.ts: `isUnreachable` and `asyncRoute`.
use queueway.Base.{
  chars, ◌+◌, ◌||◌, [], nat_eq, ◌&&◌, ◌∷◌, leb, map, any, Bool, Result, Exec, String, ℕ,
  if◌then◌else◌, List, Option, Error, false, true, err, ok,
}
use Prim.Native.Char.{Char, code}
use Prim.Native.String.{◌++◌}
use queueway.Types.{or_else, Job}
use queueway.Engine.Api.{Stats}
use queueway.Monitoring.HealthCheck.{HealthStatus}

-- The flag `i` of a regular expression, on the letters that its pattern holds.
abbrev pub fold_case : Char → ℕ
fold_case c = let n = code c in if leb 65 n && leb n 90 then n + 32 else n

abbrev pub begins : List ℕ → List Char → Bool
begins [] cs = true
begins (p ∷ ps) [] = false
begins (p ∷ ps) (c ∷ cs) = nat_eq p (fold_case c) && begins ps cs

abbrev pub occurs : List ℕ → List Char → Bool
occurs ps [] = begins ps []
occurs ps (c ∷ cs) = begins ps (c ∷ cs) || occurs ps cs

abbrev pub mentions : String → String → Bool
mentions pattern text = occurs (map fold_case (chars pattern)) (chars text)

-- What a thrown value tells of itself: `err.code`, `err.message`, `err.errors[0].code`.
pub record Fault : Type 0 where
  pub code : Option String
  pub message : Option String
  pub nested_code : Option String

abbrev pub fault_text : Fault → String
fault_text f = or_else f.code "" ++ " " ++ or_else f.message "" ++ " " ++ or_else f.nested_code ""

abbrev pub unreachable_signs : List String
unreachable_signs =
    "ECONNREFUSED" ∷ "ECONNRESET" ∷ "ETIMEDOUT" ∷ "ENOTFOUND" ∷ "EHOSTUNREACH"
    ∷ "Connection terminated" ∷ "terminating connection" ∷ "timeout" ∷ []

unfoldable pub is_unreachable : Fault → Bool
is_unreachable f = any (λ sign. mentions sign (fault_text f)) unreachable_signs

pub data Answer : Type 0 where
  stats : Stats → Answer
  jobs : List Job → Answer
  one_job : Job → Answer
  health : HealthStatus → Answer
  reset_to_pending : String → Answer
  deleted : String → Answer
  problem : String → Answer

pub record HttpReply : Type 0 where
  pub status : ℕ
  pub body : Answer

abbrev pub reply : ℕ → Answer → HttpReply
reply status body = record { status = status; body = body }

-- `fault` is how an error of the store's driver or of the engine describes itself.
module _ (fault : Error → Fault) where
  abbrev pub failure : Error → HttpReply
  failure e =
      if is_unreachable (fault e)
      then reply 503 (problem "Store unavailable")
      else reply 500 (problem "Internal server error")

  -- The handlers answer as their last step, so that no header is sent before an error.
  abbrev pub settled : {W : Type 0} → Result HttpReply × W → HttpReply × W
  settled (ok r, w) = (r, w)
  settled (err e, w) = (failure e, w)

  unfoldable pub async_route : {W : Type 0} → Exec W HttpReply → W → HttpReply × W
  async_route m w = settled (m w)
