-- ===== src/Broker/Memory/Settled.antt =====
-- What it means that no job is left unfinished in a store of the in-memory broker's engine, and how
-- one write to a record keeps or brings this about.
use queueway.Base.{
  arith, ◌≡◌, ◌≤◌, ◌==◌, ◌||◌, eq_iff, none, some, true, false, ok, refl, inl, inr, Bool-cases,
  Bool, Result, String, ℕ,
}
use queueway.Types.{Job, JobStatus}
use queueway.Store.Contract.{IStore, IsStore}
use queueway.Engine.World.{World, is_unfinished}
use queueway.Engine.Delivery.{Handler, failed_once}
use queueway.Engine.Delivery.Outcomes.{marked, marked_before, marked_lem}

-- This job besides.
abbrev pub also : String → (String → Bool) → String → Bool
also id todo j = id == j || todo j

module _ {S : Type 0} {store : IStore S} (law : IsStore store) where
  open law use {find, online}

  -- The store can be reached, and the unfinished jobs are among those that are still to do.
  pub record IsSettled (todo : String → Bool) (w : World S) : Type 0 where
    pub up : online w.store ≡ true
    pub rest :
        (id : String) (r : Job)
        → find w.store id ≡ some r
        → is_unfinished r.status ≡ true
        → todo id ≡ true

  -- What the handler does with the engine leaves no job unfinished behind.
  abbrev pub Careful : Handler S → Type 0
  Careful handler =
      (todo : String → Bool) (job : Job) (w : World S)
      → IsSettled todo w
      → IsSettled todo (handler job w).1

  -- Nor does what others do during a wait.
  abbrev pub Patient : (ℕ → World S → World S) → Type 0
  Patient sleep =
      (todo : String → Bool) (d : ℕ) (w : World S) → IsSettled todo w → IsSettled todo (sleep d w)

  pub marks :
      (todo : String → Bool) (id : String) (st : JobStatus) (n : ℕ) (w : World S)
      → is_unfinished st ≡ true
      → IsSettled (also id todo) w
      → IsSettled (also id todo) (marked law id st n w)
  marks todo id st n w u s = record {
    up = (marked_lem law id st n w s.up).0;
    rest = λ j r e o.
        let (r₀, old, q) = marked_before law id st n w s.up j r e in
        ground (arith, q, s.rest j r₀ old);
  }

  pub closes :
      (todo : String → Bool) (id : String) (st : JobStatus) (n : ℕ) (w : World S)
      → is_unfinished st ≡ false
      → IsSettled (also id todo) w
      → IsSettled todo (marked law id st n w)
  closes todo id st n w u s = record {
    up = (marked_lem law id st n w s.up).0;
    rest = λ j r e o.
        let (r₀, old, q) = marked_before law id st n w s.up j r e in
        ground (arith, q, s.rest j r₀ old);
  }

  pub released :
      (todo : String → Bool) (id : String) (w : World S)
      → find w.store id ≡ none
      → IsSettled (also id todo) w
      → IsSettled todo w
  released todo id w gone s = record {
    up = s.up;
    rest = λ j r e o. elim (Bool-cases (id == j)) [
      | inl same ↦
          let own : find w.store id ≡ some r = rw ((eq_iff id j).0 same) e in cc (gone, own)
      | inr other ↦ ground (arith, s.rest j r e o, other)
    ];
  }

  pub loosened :
      (todo : String → Bool) (id : String) (w : World S)
      → IsSettled todo w
      → IsSettled (also id todo) w
  loosened todo id w s = record { up = s.up; rest = λ j r e o. ground (arith, s.rest j r e o) }

  -- The call returned, the job object has its id and no fewer attempts, and nothing is left to do
  -- but this.
  pub record Done (todo : String → Bool) (job : Job) (p : Result Job × World S) : Type 0 where
    pub left : Job
    pub world : World S
    pub returned : p ≡ (ok left, world)
    pub same : left.id ≡ job.id
    pub grown : job.attempts ≤ left.attempts
    pub settled : IsSettled todo world

  -- The job object has gained an attempt in between.
  pub Done-failed :
      (todo : String → Bool) (job : Job) {p : Result Job × World S}
      → Done todo (failed_once job) p
      → Done todo job p
  Done-failed todo job d = record {
    left = d.left;
    world = d.world;
    returned = d.returned;
    same = d.same;
    grown = omega (arith, d.grown);
    settled = d.settled;
  }

  pub Done-here :
      (todo : String → Bool) (job : Job) (w : World S) {p : Result Job × World S}
      → p ≡ (ok job, w)
      → IsSettled todo w
      → Done todo job p
  Done-here todo job w e s = record {
    left = job;
    world = w;
    returned = e;
    same = refl;
    grown = omega arith;
    settled = s;
  }
