-- ===== src/Engine/Delivery/Outcomes.antt =====
-- What one delivery of Queueway.ts does to the job's record, on each of its paths.
use mathlib.Core.Option
use queueway.Base.{
  Bool, Option, none, Result, sym, ap, ◌==◌, eq_refl, ◌∙◌, arith, if◌then◌else◌, unreachable, some,
  err, ok, is_some, true, false, ℕ, ◌≡◌, String, refl,
}
use queueway.Store.Contract.{IsStore, IStore}
use queueway.Engine.World.{is_over, World, set_status, job_exists, already_finished}
use queueway.Types.{patch, Job, JobStatus}

rewritten :
    (b : Bool) (f : Job → Job) (o : Option Job) (r : Job)
    → (if b then Option.map f o else o) ≡ some r
    → (r₀ : Job) × (o ≡ some r₀) × (r ≡ (if b then f r₀ else r₀))
rewritten true f none r e = cc
rewritten true f (some x) r e = (x, refl, cc)
rewritten false f none r e = cc
rewritten false f (some x) r e = (x, refl, cc)

module _ {S : Type 0} {store : IStore S} (law : IsStore store) where
  open law use {find, online}

  -- An update that reaches the store changes the store alone.
  set_status_lem :
      (id : String) (st : JobStatus) (n : ℕ) (w : World S)
      → online w.store ≡ true
      → (s : S) × (set_status store id st n w ≡ (ok tt, record w { store = s }))
        × (online s ≡ true)
        × ((j : String)
            → find s j ≡ (
                if id == j
                then Option.map (patch st (some n)) (find w.store j)
                else find w.store j))
  unfolding set_status
  set_status_lem id st n w o =
      let (s, e, o', f) = law.update w.store id st (some n) o in (s, rw e refl, o', f)

  pub set_status_down :
      (id : String) (st : JobStatus) (n : ℕ) (w : World S)
      → online w.store ≡ false
      → set_status store id st n w ≡ (err unreachable, w)
  unfolding set_status
  set_status_down id st n w o = rw (law.update_down w.store id st (some n) o) refl

  -- The world after a status is written.
  abbrev pub marked : String → JobStatus → ℕ → World S → World S
  marked id st n w = (set_status store id st n w).1

  pub set_status_eq :
      (id : String) (st : JobStatus) (n : ℕ) (w : World S)
      → online w.store ≡ true
      → set_status store id st n w ≡ (ok tt, marked id st n w)
  set_status_eq id st n w o =
      let (s, e, _, _) = set_status_lem id st n w o in
      e ∙ ap (λ (w' : World S). (ok tt, w')) (sym (ap (λ (p : Result (Unit {0}) × World S). p.1) e))

  pub marked_lem :
      (id : String) (st : JobStatus) (n : ℕ) (w : World S)
      → online w.store ≡ true
      → (online (marked id st n w).store ≡ true)
        × (find (marked id st n w).store id ≡ Option.map (patch st (some n)) (find w.store id))
        × ((marked id st n w).sent ≡ w.sent)
        × ((marked id st n w).timers ≡ w.timers)
        × ((marked id st n w).handled ≡ w.handled)
        × ((marked id st n w).accepting ≡ w.accepting)
  marked_lem id st n w o =
      let (s, e, o', f) = set_status_lem id st n w o in
      let q : marked id st n w ≡ record w { store = s } =
        ap (λ (p : Result (Unit {0}) × World S). p.1) e in
      rw q (o', f id ∙ rw (eq_refl id) refl, refl, refl, refl, refl)

  find-marked :
      (id : String) (st : JobStatus) (n : ℕ) (w : World S)
      → online w.store ≡ true
      → (j : String)
      → find (marked id st n w).store j
        ≡ (if id == j then Option.map (patch st (some n)) (find w.store j) else find w.store j)
  find-marked id st n w o j =
      let (s, e, _, f) = set_status_lem id st n w o in
      let q : marked id st n w ≡ record w { store = s } =
        ap (λ (p : Result (Unit {0}) × World S). p.1) e in
      rw q (f j)

  -- The record that was there before a status was written.
  pub marked_before :
      (id : String) (st : JobStatus) (n : ℕ) (w : World S)
      → online w.store ≡ true
      → (j : String) (r : Job) → find (marked id st n w).store j ≡ some r
      → (r₀ : Job) × (find w.store j ≡ some r₀)
        × (r ≡ (if id == j then patch st (some n) r₀ else r₀))
  marked_before id st n w o j r e =
      rewritten (id == j) (patch st (some n)) (find w.store j) r
        (sym (find-marked id st n w o j) ∙ e)

  pub job_exists_lem :
      (w : World S) (id : String)
      → online w.store ≡ true
      → job_exists store w id ≡ is_some (find w.store id)
  unfolding job_exists
  job_exists_lem w id o = rw (law.get w.store id, o) (ground arith)

  pub job_exists_down :
      (w : World S) (id : String) → online w.store ≡ false → job_exists store w id ≡ true
  unfolding job_exists
  job_exists_down w id o = rw (law.get w.store id, o) refl

  pub already_finished_lem :
      (w : World S) (id : String) (r : Job)
      → online w.store ≡ true
      → find w.store id ≡ some r
      → already_finished store w id ≡ is_over r.status
  unfolding already_finished
  already_finished_lem w id r o e = rw (law.get w.store id, o, e) refl

  pub already_finished_down :
      (w : World S) (id : String) → online w.store ≡ false → already_finished store w id ≡ false
  unfolding already_finished
  already_finished_down w id o = rw (law.get w.store id, o) refl
