-- ===== src/Cli/Machine/Runs.antt =====
-- What happens when a program of the setup runs: its calls and their answers, the latest first.
use queueway.Cli.Machine.{◌>>=◌, Effect, Response, Wizard, done, throw, step}
use queueway.Base.{[], none, ◌∷◌, some, Option, List}

pub data Event : Type 0 where
  called : (c : Effect) → Response c → Event

-- The user and the machine: an answer to each call, by what was called and answered before.
abbrev pub Outside : Type 0
Outside = List Event → (c : Effect) → Response c

module _ {ℓ} {A : Type ℓ} where
  abbrev pub run : Outside → List Event → Wizard A → Option A × List Event
  run o h (done a) = (some a, h)
  run o h throw = (none, h)
  run o h (step c k) = run o (called c (o h c) ∷ h) (k (o h c))

  -- Every call of a program keeps a rule, and every end of it has a property, whatever is answered.
  abbrev pub Along :
      (List Event → Effect → Type 0)
      → (List Event → Option A → Type 0)
      → List Event
      → Wizard A
      → Type 0
  Along rule ends h (done a) = ends h (some a)
  Along rule ends h throw = ends h none
  Along rule ends h (step c k) =
      rule h c × ((r : Response c) → Along rule ends (called c r ∷ h) (k r))

abbrev pub Kept : (List Event → Effect → Type 0) → List Event → Type 0
Kept rule [] = Unit
Kept rule (called c r ∷ h) = rule h c × Kept rule h

module _ {ℓ} {A : Type ℓ} (rule : List Event → Effect → Type 0)
    (ends : List Event → Option A → Type 0) where
  -- A rule that every branch keeps is kept by every run.
  pub run-Along :
      (o : Outside) (h : List Event) (w : Wizard A)
      → Kept rule h
      → Along rule ends h w
      → Kept rule (run o h w).1 × ends (run o h w).1 (run o h w).0
  run-Along o h (done a) k e = (k, e)
  run-Along o h throw k e = (k, e)
  run-Along o h (step c f) k e =
      run-Along o (called c (o h c) ∷ h) (f (o h c)) (e.0, k) (e.1 (o h c))

module _ {ℓ κ} {A : Type ℓ} {B : Type κ} (rule : List Event → Effect → Type 0)
    (ends : List Event → Option B → Type 0) where
  -- What is left to show of a program's end, where another goes on.
  abbrev pub Then : (A → Wizard B) → List Event → Option A → Type 0
  Then f h none = ends h none
  Then f h (some a) = Along rule ends h (f a)

  pub Along-bind :
      (h : List Event) (m : Wizard A) (f : A → Wizard B)
      → Along rule (Then f) h m
      → Along rule ends h (m >>= f)
  Along-bind h (done a) f e = e
  Along-bind h throw f e = e
  Along-bind h (step c k) f e = (e.0, λ r. Along-bind (called c r ∷ h) (k r) f (e.1 r))

module _ {ℓ} {A : Type ℓ} (rule : List Event → Effect → Type 0)
    (ends more : List Event → Option A → Type 0) where
  pub Along-weaken :
      (h : List Event) (m : Wizard A)
      → ((h : List Event) (o : Option A) → ends h o → more h o)
      → Along rule ends h m
      → Along rule more h m
  Along-weaken h (done a) w e = w h (some a) e
  Along-weaken h throw w e = w h none e
  Along-weaken h (step c k) w e = (e.0, λ r. Along-weaken (called c r ∷ h) (k r) w (e.1 r))
