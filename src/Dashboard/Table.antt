-- ===== src/Dashboard/Table.antt =====
-- packages/dashboard/src/app/page.tsx: the cards of the counts and the rows of the table.
use queueway.Base.{
  ◌∙◌, ◌≢◌, ◌↔◌, ◌⊎◌, arith, Bool-cases, eq_iff, sym, ap, inr, inl, text_cases, not, ◌&&◌, any, ◌≡◌,
  ◌==◌, refl, ℕ, Bool, true, false, String, Option, none, some, List, [], ◌∷◌, map, if◌then◌else◌,
}
use queueway.Types.{Job, JobStatus, failed}
use queueway.Engine.Api.{Stats, Counts}
use queueway.Dashboard.Content.{offers_delete, offers_retry, Content, may_retry, is_the}

pub data StatCard : Type 0 where
  pending_card processing_card completed_card failed_card : StatCard

abbrev pub stat_cards : List StatCard
stat_cards = pending_card ∷ processing_card ∷ completed_card ∷ failed_card ∷ []

abbrev count_of : StatCard → Counts → ℕ
count_of pending_card c = c.pending
count_of processing_card c = c.processing
count_of completed_card c = c.completed
count_of failed_card c = c.failed

-- `stats?.jobs?.[key] ?? 0`
abbrev pub shown_count : StatCard → Option Stats → ℕ
shown_count key none = 0
shown_count key (some s) = count_of key s.jobs

-- A button is there or not, and enabled or not.
pub data Button : Type 0 where
  absent enabled disabled : Button

abbrev pub button : Bool → Button
button true = disabled
button false = enabled

-- The times and the JSON of the data are shown as they are.
pub record Row : Type 0 where
  pub key : String
  pub short_id : String
  pub event_name : String
  pub status : JobStatus
  pub attempts : ℕ
  pub payload : String
  pub created_at : ℕ
  pub retry : Button
  pub delete : Button

-- `first8` is the `slice(0, 8)` of a text.
module _ (first8 : String → String) where
  abbrev pub row : Content → Job → Row
  row c job = record {
    key = job.id;
    short_id = first8 job.id;
    event_name = job.event_name;
    status = job.status;
    attempts = job.attempts;
    payload = job.payload;
    created_at = job.created_at;
    retry = if may_retry job.status then button (is_the c.retrying job.id) else absent;
    delete = button (is_the c.deleting job.id);
  }

  -- `none` is the line that says that there are no jobs in this view.
  unfoldable pub table_body : Content → Option (List Row)
  table_body c = elim c.jobs [ [] ↦ none | job ∷ jobs ↦ some (row c job ∷ map (row c) jobs) ]

abbrev is_enabled : Button → Bool
is_enabled enabled = true
is_enabled _ = false

-- Some row of the table has an enabled button of the kind for the job.
abbrev pub enables : (Row → Button) → String → Option (List Row) → Bool
enables kind id none = false
enables kind id (some rows) = any (λ r. r.key == id && is_enabled (kind r)) rows

any-row :
    (first8 : String → String) (c : Content) (id : String) (kind : Row → Button) (p : Job → Bool)
    (jobs : List Job)
    → ((job : Job) → p job ≡ (job.id == id && is_enabled (kind (row first8 c job))))
    → any p jobs ≡ any (λ r. r.key == id && is_enabled (kind r)) (map (row first8 c) jobs)
any-row first8 c id kind p [] h = refl
any-row first8 c id kind p (job ∷ jobs) h = rw (h job, any-row first8 c id kind p jobs h) refl

shown_button : (m b : Bool) → (m && not b) ≡ is_enabled (if m then button b else absent)
shown_button true true = refl
shown_button true false = refl
shown_button false b = refl

retry_button :
    (first8 : String → String) (c : Content) (id : String) (job : Job)
    → (job.id == id && may_retry job.status && not (is_the c.retrying id))
      ≡ (job.id == id && is_enabled (row first8 c job).retry)
retry_button first8 c id job = elim (text_cases job.id id) [
  | inl (t, same) ↦ rw (t, same) (shown_button (may_retry job.status) (is_the c.retrying id))
  | inr (t, other) ↦ rw t refl
]

delete_button :
    (first8 : String → String) (c : Content) (id : String) (job : Job)
    → (job.id == id && not (is_the c.deleting id))
      ≡ (job.id == id && is_enabled (row first8 c job).delete)
delete_button first8 c id job = elim (text_cases job.id id) [
  | inl (t, same) ↦ rw (t, same) (shown_button true (is_the c.deleting id))
  | inr (t, other) ↦ rw t refl
]

enables_rows :
    (first8 : String → String) (c : Content) (id : String) (kind : Row → Button) (jobs : List Job)
    → any (λ r. r.key == id && is_enabled (kind r)) (map (row first8 c) jobs)
      ≡ enables kind id
          (elim jobs [ [] ↦ none | job ∷ rest ↦ some (row first8 c job ∷ map (row first8 c) rest) ])
enables_rows first8 c id kind [] = refl
enables_rows first8 c id kind (job ∷ rest) = refl

buttons_lem :
    (first8 : String → String) (c : Content) (id : String)
    → (offers_retry id c ≡ enables (λ r. r.retry) id (table_body first8 c))
      × (offers_delete id c ≡ enables (λ r. r.delete) id (table_body first8 c))
unfolding offers_retry offers_delete table_body
buttons_lem first8 c id = (
  any-row first8 c id (λ r. r.retry) _ c.jobs (retry_button first8 c id)
      ∙ enables_rows first8 c id (λ r. r.retry) c.jobs,
  any-row first8 c id (λ r. r.delete) _ c.jobs (delete_button first8 c id)
      ∙ enables_rows first8 c id (λ r. r.delete) c.jobs,
)

-- One of the jobs is like this.
abbrev pub IsListed : (Job → Type 0) → List Job → Type 0
IsListed P [] = ⊥
IsListed P (job ∷ jobs) = P job ⊎ IsListed P jobs

any_iff :
    {p : Job → Bool} {P : Job → Type 0} (jobs : List Job)
    → ((job : Job) → (p job ≡ true) ↔ P job)
    → (any p jobs ≡ true) ↔ IsListed P jobs
any_iff [] h = ground arith
any_iff {p} (job ∷ jobs) h = elim (Bool-cases (p job)) [
  | inl e ↦ rw e (λ _. inl ((h job).0 e), λ _. refl)
  | inr e ↦
      let (there, back) = any_iff jobs h in
      rw e
        (λ t. inr (there t), λ o. elim o [ inl q ↦ absurd (cc (e, (h job).1 q)) | inr q ↦ back q ])
]

both_iff :
    (a b c : Bool) {A B C : Type 0}
    → ((a ≡ true) ↔ A)
    → ((b ≡ true) ↔ B)
    → ((c ≡ false) ↔ C)
    → ((a && b && not c) ≡ true) ↔ (A × B × C)
both_iff true true false f g h = (λ _. (f.0 refl, g.0 refl, h.0 refl), λ _. refl)
both_iff true true true f g h = (λ e. cc e, λ t. sym (h.1 t.2))
both_iff true false _ f g h = (λ e. cc e, λ t. g.1 t.1)
both_iff false _ _ f g h = (λ e. cc e, λ t. f.1 t.0)

two_iff :
    (a c : Bool) {A C : Type 0}
    → ((a ≡ true) ↔ A)
    → ((c ≡ false) ↔ C)
    → ((a && not c) ≡ true) ↔ (A × C)
two_iff true false f h = (λ _. (f.0 refl, h.0 refl), λ _. refl)
two_iff true true f h = (λ e. cc e, λ t. sym (h.1 t.1))
two_iff false _ f h = (λ e. cc e, λ t. f.1 t.0)

may_retry_iff : (st : JobStatus) → (may_retry st ≡ true) ↔ (st ≡ failed)
may_retry_iff failed = (λ _. refl, λ _. refl)
may_retry_iff _ = ground arith

is_the_iff : (o : Option String) (id : String) → (is_the o id ≡ false) ↔ (o ≢ some id)
is_the_iff none id = (λ _ e. cc (e), λ _. refl)
is_the_iff (some x) id = elim (text_cases x id) [
  | inl (t, same) ↦ rw t (λ e. cc e, λ n. absurd (n (ap some same)))
  | inr (t, other) ↦ rw t (λ _ e. other (cc e), λ _. refl)
]

-- The table has an enabled button to retry a job exactly if the job is listed as failed and is not
-- being retried, and an enabled button to delete a job exactly if it is listed and is not being
-- deleted.
pub table_offers :
    (first8 : String → String) (c : Content) (id : String)
    → ((enables (λ r. r.retry) id (table_body first8 c) ≡ true)
        ↔ IsListed (λ job. (job.id ≡ id) × (job.status ≡ failed) × (c.retrying ≢ some id)) c.jobs)
      × ((enables (λ r. r.delete) id (table_body first8 c) ≡ true)
          ↔ IsListed (λ job. (job.id ≡ id) × (c.deleting ≢ some id)) c.jobs)
unfolding offers_retry offers_delete
table_offers first8 c id =
    let (r, d) = buttons_lem first8 c id in
    (
      rw (← r) (
          any_iff c.jobs (λ job.
            both_iff (job.id == id) (may_retry job.status) (is_the c.retrying id) (eq_iff job.id id)
              (may_retry_iff job.status) (is_the_iff c.retrying id))),
      rw (← d) (
          any_iff c.jobs (λ job.
            two_iff (job.id == id) (is_the c.deleting id) (eq_iff job.id id)
              (is_the_iff c.deleting id))),
    )
