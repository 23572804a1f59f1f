-- ===== src/Server/Answers.antt =====
-- createServer.ts: what the routes of one job answer, over any store that keeps the contract.
use queueway.Server.Routes.{route, Call, post_retry, delete_job, get_job}
use queueway.Engine.Api
use queueway.Base.{
  eq_refl, ◌∙◌, not_found, unreachable, ◌≡◌, Error, String, refl, true, false, some, none,
}
use queueway.Store.Contract.{IsStore, IStore}
use queueway.Engine.Delivery.{Handler}
use queueway.Server.Errors.{
  deleted, problem, one_job, reply, is_unreachable, HttpReply, async_route, Fault,
}
use queueway.Engine.World.{World}
use queueway.Monitoring.HealthCheck.{HealthStatus}
use queueway.Types.{Job}
use queueway.Engine.Api.Laws.{delete_job_lem}

module _ {S : Type 0} {store : IStore S} (law : IsStore store) (publish : String → Handler S)
    (fault : Error → Fault) (report : World S → HealthStatus) where
  open law use {find, online}

  abbrev pub run : Call → World S → HttpReply × World S
  run = route store publish fault report

  -- While the store is down, and if its error is recognised as a failure to connect, the routes
  -- that show, retry or delete a job answer 503 and change nothing.
  outage_answers :
      (id : String) (w : World S)
      → online w.store ≡ false
      → is_unreachable (fault unreachable) ≡ true
      → let answer = reply 503 (problem "Store unavailable") in
        (run (get_job id) w ≡ (answer, w))
        × (run (post_retry id) w ≡ (answer, w))
        × (run (delete_job id) w ≡ (answer, w))
  unfolding route async_route Api.get_job Api.retry_job
  outage_answers id w o u = rw (law.get w.store id, o, u) (refl, refl, refl)

  -- A job that is not there is a 404 for reading and deleting, but a failure for retrying.
  pub missing_job_answers :
      (id : String) (w : World S)
      → online w.store ≡ true
      → find w.store id ≡ none
      → is_unreachable (fault not_found) ≡ false
      → let answer = reply 404 (problem "Job not found") in
        (run (get_job id) w ≡ (answer, w))
        × (run (delete_job id) w ≡ (answer, w))
        × (run (post_retry id) w ≡ (reply 500 (problem "Internal server error"), w))
  unfolding route async_route Api.get_job Api.retry_job
  missing_job_answers id w o n u = rw (law.get w.store id, o, n, u) (refl, refl, refl)

  -- With the store reachable, the routes of a recorded job show it with status 200 and change
  -- nothing, or delete it with status 200 so that it is no longer recorded.
  found_job_answers :
      (id : String) (r : Job) (w : World S)
      → online w.store ≡ true
      → find w.store id ≡ some r
      → (run (get_job id) w ≡ (reply 200 (one_job r), w))
        × ((run (delete_job id) w).0 ≡ reply 200 (deleted id))
        × (find (run (delete_job id) w).1.store id ≡ none)
  unfolding route async_route Api.get_job
  found_job_answers id r w o f =
      let (s, d, _, g) = delete_job_lem law w id r o f in
      rw (law.get w.store id, o, f, d) (refl, refl, g id ∙ rw (eq_refl id) refl)
