-- ===== src/Store/Listing.antt =====
-- `getAllJobs` of the stores: filter by status, newest first, at most `limit`.
use queueway.Base.{
  ℕ, zero, suc, String, Option, none, some, List, [], ◌∷◌, ◌==◌, ltb, keep, take, if◌then◌else◌,
}
use queueway.Types.{Job, status_name}

-- Rows with equal times keep their order (a stable sort).
abbrev pub insert_by_time : Job → List Job → List Job
insert_by_time x [] = x ∷ []
insert_by_time x (y ∷ ys) =
    let rest = insert_by_time x ys in if ltb x.created_at y.created_at then y ∷ rest else x ∷ y ∷ ys

-- `sort((a, b) => b.createdAt - a.createdAt)`, `ORDER BY created_at DESC`
unfoldable pub newest_first : List Job → List Job
newest_first [] = []
newest_first (x ∷ xs) = insert_by_time x (newest_first xs)

-- `if (status)`: an absent or an empty status does not filter.
abbrev pub of_status : Option String → List Job → List Job
of_status none jobs = jobs
of_status (some s) jobs = if s == "" then jobs else keep (λ j. status_name j.status == s) jobs

-- `if (limit)`: an absent limit and 0 do not limit.
abbrev pub limited : Option ℕ → List Job → List Job
limited none jobs = jobs
limited (some zero) jobs = jobs
limited (some (suc n)) jobs = take (suc n) jobs
