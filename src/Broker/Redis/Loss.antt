-- ===== src/Broker/Redis/Loss.antt =====
-- What RedisBroker.ts takes from a list, and what becomes of it in an outage of the store.
use queueway.Base.{
  arith, ap, inr, text_cases, [], inl, ◌∷◌, true, ◌++◌, some, ◌⊎◌, false, ℕ, none, ◌==◌, ◌≡◌, All,
  List, String, refl,
}
use queueway.Broker.Redis.{redis_traits, poll_once, brpop}
use queueway.Store.Contract.{IsStore, IStore}
use queueway.Types.{Job}
use queueway.Retry.{RetryManager}
use queueway.Engine.World.{enqueue, World}
use queueway.Engine.Delivery.{deliver, Handler}
use queueway.Engine.Delivery.Paths.{deliver_rejects_in_outage}

-- No message of the list is one of the event.
abbrev pub HasNone : String → List (String × Job) → Type 0
HasNone event q = All (λ m. (m.0 == event) ≡ false) q

-- Taking a job for an event from the messages takes the oldest one of that event and no other, and
-- finds none only if there is none.
brpop_takes_oldest :
    (event : String) (q : List (String × Job))
    → (brpop event q ≡ none) × HasNone event q
      ⊎ ((older newer : List (String × Job)) × (job : Job) × (brpop event q
            ≡ some (job, older ++ newer))
          × HasNone event older
          × (q ≡ older ++ (event, job) ∷ newer))
unfolding brpop
brpop_takes_oldest event [] = inl (refl, tt)
brpop_takes_oldest event ((e, job) ∷ rest) = elim (text_cases e event) [
  | inl (t, same) ↦ inr ([], rest, job, rw t refl, tt, rw same refl)
  | inr (t, other) ↦ elim (brpop_takes_oldest event rest) [
    | inl (missing, h) ↦ inl (rw (t, missing) refl, (t, h))
    | inr (older, newer, j, found, h, parts) ↦
        inr ((e, job) ∷ older, newer, j, rw (t, found) refl, (t, h), ap (◌∷◌ (e, job)) parts)
  ]
]

-- A worker that takes a job from its Redis list while the store is unreachable loses it: the job
-- is out of the list, and nothing else of the world changes, neither the record nor the calls of
-- handlers.
pub poll_once_loses :
    {S : Type 0} {store : IStore S} (law : IsStore store) (retry : RetryManager)
    (sleep : ℕ → World S → World S) (event : String) (handler : Handler S) (job : Job)
    (left : List (String × Job)) (w : World S)
    → w.accepting ≡ true
    → law.online w.store ≡ false
    → brpop event w.sent ≡ some (job, left)
    → poll_once event (deliver store redis_traits retry sleep enqueue event handler) w
      ≡ record w { sent = left }
unfolding poll_once
poll_once_loses law retry sleep event handler job left w a o e = ground (
  arith,
  a,
  e,
  deliver_rejects_in_outage law redis_traits retry sleep enqueue event handler job
      (record w { sent = left }) o,
)
