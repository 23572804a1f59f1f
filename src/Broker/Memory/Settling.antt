-- ===== src/Broker/Memory/Settling.antt =====
-- Publishing on the in-memory broker leaves no job unfinished: it returns when the job is completed,
-- failed or deleted, with all retries.
use queueway.Base.{
  arith, attempt, ◌>>=◌, ◌>>◌, ◌≡◌, ◌∙◌, ◌<◌, ◌≤◌, ◌+◌, ◌∷◌, [], All, map, true, ok, err, zero, suc,
  refl, inl, inr, Bool-cases, Option-cases, Bool, List, Result, String, ℕ,
}
use queueway.Types.{Job, completed, failed, pending, processing, retrying}
use queueway.Store.Contract.{IStore, IsStore}
use queueway.Retry.{should_retry, RetryManager}
use queueway.Engine.World.{World, set_status}
use queueway.Engine.Delivery.{Handler, call, failed_once, handle_retry, move_to_dlq}
use queueway.Engine.Delivery.Outcomes.{job_exists_lem, marked, set_status_eq}
use queueway.Broker.Memory.{
  Callback, Subscriptions, deliver_shared, fail_shared, handlers_of, publish, requeue_shared,
  run_each, settle_shared,
}
use queueway.Broker.Memory.Settled.{
  Careful, Done, Done-failed, Done-here, IsSettled, Patient, also, closes, loosened, marks,
  released,
}

module _ {S : Type 0} {store : IStore S} (law : IsStore store) where
  open law use {find}

  module _ (retry : RetryManager) (sleep : ℕ → World S → World S) (patient : Patient law sleep)
      (p : String → Callback S) (event : String) (todo : String → Bool) where
    -- The nested publish settles the job, where the callback makes one.
    abbrev Nested : ℕ → String → Type 0
    Nested least id =
        (j : Job) (w : World S)
        → j.id ≡ id
        → least < j.attempts
        → should_retry retry j ≡ true
        → IsSettled law (also id todo) w
        → Done law todo j (p event j w)

    requeue-Done :
        (job : Job) (w : World S)
        → IsSettled law (also job.id todo) w
        → ((w : World S) → IsSettled law (also job.id todo) w → Done law todo job (p event job w))
        → Done law todo job (requeue_shared store retry sleep p event job w)
    unfolding requeue_shared
    requeue-Done job w s nested = elim (Option-cases (find w.store job.id)) [
      | inl gone ↦
          Done-here law todo job w (rw (job_exists_lem law w job.id s.up, gone) refl)
            (released law todo job.id w gone s)
      | inr (r, found) ↦
          rw (job_exists_lem law w job.id s.up, found)
            (rw (set_status_eq law job.id pending job.attempts w s.up)
              (nested _ (marks law todo job.id pending job.attempts w refl s)))
    ]

    fail-Done :
        (job : Job) (w : World S)
        → IsSettled law (also job.id todo) w
        → (should_retry retry job ≡ true
            → (w : World S) → IsSettled law (also job.id todo) w
            → Done law todo job (p event job w))
        → Done law todo job (fail_shared store retry sleep p event job w)
    unfolding fail_shared handle_retry move_to_dlq
    fail-Done job w s nested = elim (Bool-cases (should_retry retry job)) [
      | inl t ↦
          rw (t, set_status_eq law job.id retrying job.attempts w s.up)
            (rw t (
              requeue-Done job _
                (patient (also job.id todo) _ _
                  (marks law todo job.id retrying job.attempts w refl s))
                (nested t)))
      | inr t ↦ elim (Option-cases (find w.store job.id)) [
        | inl gone ↦
            Done-here law todo job w (rw (t, job_exists_lem law w job.id s.up, gone) refl)
              (released law todo job.id w gone s)
        | inr (r, found) ↦
            Done-here law todo job (marked law job.id failed job.attempts w)
              (rw (t, job_exists_lem law w job.id s.up, found)
                (rw (set_status_eq law job.id failed job.attempts w s.up) refl))
              (closes law todo job.id failed job.attempts w refl s)
      ]
    ]

    deliver-Done :
        (handler : Handler S) (job : Job) (w : World S) (least : ℕ)
        → Careful law handler
        → Nested least job.id
        → least ≤ job.attempts
        → IsSettled law (also job.id todo) w
        → Done law todo job (deliver_shared store retry sleep p event handler job w)
    unfolding deliver_shared
    deliver-Done handler job w least careful nested le s =
        elim (Option-cases (find w.store job.id)) [
          | inl gone ↦
              Done-here law todo job w (rw (job_exists_lem law w job.id s.up, gone) refl)
                (released law todo job.id w gone s)
          | inr (r, found) ↦
              rw (job_exists_lem law w job.id s.up, found)
                (rw (set_status_eq law job.id processing job.attempts w s.up)
                  (ended (call handler job begun).0 refl))
        ]
      where
        begun : World S
        begun = marked law job.id processing job.attempts w

        ran : IsSettled law (also job.id todo) (call handler job begun).1
        ran =
            let b = marks law todo job.id processing job.attempts w refl s in
            careful (also job.id todo) job _ (record { up = b.up; rest = b.rest })

        ended :
            (r : Result (Unit {0}))
            → (call handler job begun).0 ≡ r
            → Done law todo job (
                (do
                  r ← attempt (do call handler job; set_status store job.id completed job.attempts)
                  settle_shared store retry sleep p event job r)
                  begun)
        ended (ok _) e =
            Done-here law todo job _
              (rw e (
                rw
                  (set_status_eq law job.id completed job.attempts (call handler job begun).1
                    ran.up)
                  refl))
              (closes law todo job.id completed job.attempts (call handler job begun).1 refl ran)
        ended (err x) e = rw e (
            Done-failed law todo job (
              fail-Done (failed_once job) (call handler job begun).1 ran
                (λ t w s. nested (failed_once job) w refl (omega arith) t s)))

    abbrev deliveries : List (Handler S) → Callback S
    deliveries hs = run_each (map (deliver_shared store retry sleep p event) hs)

    -- The next handlers get the object that the first one left.
    Done-then :
        (x : Handler S) (hs : List (Handler S)) (job : Job) (w : World S)
        → Done law todo job (deliver_shared store retry sleep p event x job w)
        → ((left : Job) (w : World S)
            → left.id ≡ job.id
            → job.attempts ≤ left.attempts
            → IsSettled law todo w
            → Done law todo left (deliveries hs left w))
        → Done law todo job (deliveries (x ∷ hs) job w)
    unfolding run_each
    Done-then x hs job w d next =
        let n = next d.left d.world d.same d.grown d.settled in
        record {
          left = n.left;
          world = n.world;
          returned = rw d.returned n.returned;
          same = n.same ∙ d.same;
          grown = omega (arith, d.grown, n.grown);
          settled = n.settled;
        }

    each-Done :
        (hs : List (Handler S)) (job : Job) (w : World S) (least : ℕ)
        → All (Careful law) hs
        → Nested least job.id
        → least ≤ job.attempts
        → IsSettled law todo w
        → Done law todo job (deliveries hs job w)
    unfolding run_each
    each-Done [] job w least c nested le s = Done-here law todo job w refl s
    each-Done (x ∷ hs) job w least (c, cs) nested le s =
        Done-then x hs job w (deliver-Done x job w least c nested le (loosened law todo job.id w s))
          (λ left w same grown s.
            each-Done hs left w least cs (λ j w e l t s. nested j w (e ∙ same) l t (rw same at s))
              (omega arith) s)

    -- The first delivery settles the job.
    first-Done :
        (x : Handler S) (hs : List (Handler S)) (job : Job) (w : World S)
        → All (Careful law) (x ∷ hs)
        → Nested job.attempts job.id
        → IsSettled law (also job.id todo) w
        → Done law todo job (deliveries (x ∷ hs) job w)
    first-Done x hs job w (c, cs) nested s =
        Done-then x hs job w (deliver-Done x job w job.attempts c nested (omega arith) s)
          (λ left w same grown s.
            each-Done hs left w job.attempts cs
              (λ j w e l t s. nested j w (e ∙ same) l t (rw same at s)) (omega arith) s)

  -- Somebody has subscribed to the event, and the handlers of it are careful.
  abbrev pub Subscribed : Subscriptions S → String → Type 0
  Subscribed subs event =
      (x : Handler S) × (hs : List (Handler S)) × (handlers_of event subs.entries ≡ x ∷ hs)
      × All (Careful law) (x ∷ hs)

  module _ (retry : RetryManager) (sleep : ℕ → World S → World S) (patient : Patient law sleep)
      (subs : Subscriptions S) (event : String) (todo : String → Bool) where
    below_limit : (job : Job) → should_retry retry job ≡ true → job.attempts < retry.max_attempts
    unfolding should_retry
    below_limit job t = ground arith

    pub publish-Done :
        Subscribed subs event
        → (fuel : ℕ) (job : Job) (w : World S) → retry.max_attempts ≤ job.attempts + fuel
        → IsSettled law (also job.id todo) w
        → Done law todo job (publish store retry sleep subs (suc fuel) event job w)
    unfolding publish
    publish-Done (x, hs, e, c) zero job w enough s = rw e (
        first-Done retry sleep patient (publish store retry sleep subs zero) event todo x hs job w c
          (λ j w q l t s. absurd (omega (arith, below_limit j t))) s)
    publish-Done (x, hs, e, c) (suc fuel) job w enough s = rw e (
        first-Done retry sleep patient (publish store retry sleep subs (suc fuel)) event todo x hs
          job w c (λ j w q l t s. publish-Done (x, hs, e, c) fuel j w (omega arith) (rw (← q) at s))
          s)
