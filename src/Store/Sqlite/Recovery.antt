-- ===== src/Store/Sqlite/Recovery.antt =====
-- What recovery on a SQLite store hands back, and what it leaves in the table.
use mathlib.Core.Option
use queueway.Types.{
  JobStatus, RecoverOptions, archived, completed, failed, pending, processing, retrying,
  status_name,
}
use queueway.Store.Sqlite.{
  statuses_for, unless_false, find, reset_stuck, as_pending, row_key, is_stuck, Job, List,
  SqliteStore, recover_stuck_jobs,
}
use queueway.Store.Contract.{handed_back}
use queueway.Base.{
  ◌==◌, includes, Bool, ◌∙◌, refl, ap, inr, inl, Bool-cases, arith, ◌∷◌, [], String, false, map,
  keep, some, none, ok, true, ◌≡◌, Option, if◌then◌else◌,
}
use queueway.Store.Table.{find-keep, find-map, only, IsKeyed}

-- Where no row is stuck the update changes nothing.
reset_none :
    (o : RecoverOptions) (rs : List Job) → keep (is_stuck o) rs ≡ [] → map (reset_stuck o) rs ≡ rs
reset_none o [] h = refl
reset_none o (r ∷ rs) h = elim (Bool-cases (is_stuck o r)) [
  | inl e ↦ ground (arith, e)
  | inr e ↦ rw (e, reset_stuck) (ap (◌∷◌ r) (reset_none o rs (ground (arith, e))))
]

pub recover_lem :
    (s : SqliteStore) (o : RecoverOptions)
    → s.online ≡ true
    → recover_stuck_jobs s o
      ≡ ok (
        map as_pending (keep (is_stuck o) s.rows),
        record s { rows = map (reset_stuck o) s.rows },
      )
unfolding recover_stuck_jobs
recover_lem s o h = ground (arith, reset_none o s.rows)

abbrev counts : Option Bool → Bool
counts (some false) = false
counts _ = true

-- The statuses of a job that an earlier run left behind: a retrying job always, a processing or a
-- pending one unless the options say otherwise.
abbrev pub left_behind : (processing_too pending_too : Bool) → JobStatus → Bool
left_behind processing_too pending_too retrying = true
left_behind processing_too pending_too processing = processing_too
left_behind processing_too pending_too pending = pending_too
left_behind processing_too pending_too _ = false

abbrev pub is_lost : RecoverOptions → Job → Bool
is_lost o r = left_behind (counts o.include_processing) (counts o.include_pending) r.status

stuck_lem :
    (a b : Bool) (st : JobStatus)
    → includes (status_name st) (statuses_for a b) ≡ left_behind a b st
unfolding statuses_for
stuck_lem true true pending = refl
stuck_lem true false pending = refl
stuck_lem false true pending = refl
stuck_lem false false pending = refl
stuck_lem true true processing = refl
stuck_lem true false processing = refl
stuck_lem false true processing = refl
stuck_lem false false processing = refl
stuck_lem true true completed = refl
stuck_lem true false completed = refl
stuck_lem false true completed = refl
stuck_lem false false completed = refl
stuck_lem true true failed = refl
stuck_lem true false failed = refl
stuck_lem false true failed = refl
stuck_lem false false failed = refl
stuck_lem true true retrying = refl
stuck_lem true false retrying = refl
stuck_lem false true retrying = refl
stuck_lem false false retrying = refl
stuck_lem true true archived = refl
stuck_lem true false archived = refl
stuck_lem false true archived = refl
stuck_lem false false archived = refl

counts_lem : (o : Option Bool) → unless_false o ≡ counts o
counts_lem (some true) = refl
counts_lem (some false) = refl
counts_lem none = refl

is_stuck_lem : (o : RecoverOptions) (r : Job) → is_stuck o r ≡ is_lost o r
is_stuck_lem o r =
    stuck_lem (unless_false o.include_processing) (unless_false o.include_pending) r.status
    ∙ rw (counts_lem o.include_processing, counts_lem o.include_pending) refl

-- With the file reachable and distinct ids, a recovery hands back, as pending, exactly the recorded
-- jobs that are retrying, processing or pending, the last two unless the options leave them out;
-- their rows become pending, and all other rows stay as they were.
pub recover_exact :
    (s : SqliteStore) (o : RecoverOptions)
    → s.online ≡ true
    → IsKeyed row_key s.rows
    → (jobs : List Job) × (s' : SqliteStore) × (recover_stuck_jobs s o ≡ ok (jobs, s'))
      × ((j : String) (r : Job)
          → find row_key j s.rows ≡ some r
          → (find row_key j jobs
              ≡ (if is_lost o r then some (record r { status = pending }) else none))
            × (find row_key j s'.rows
                ≡ some (if is_lost o r then record r { status = pending } else r)))
      × ((j : String)
          → find row_key j s.rows ≡ none
          → (find row_key j jobs ≡ none) × (find row_key j s'.rows ≡ none))
recover_exact s o h k = (
  map as_pending (keep (is_stuck o) s.rows),
  record s { rows = map (reset_stuck o) s.rows },
  recover_lem s o h,
  λ j r e. (
    found j ∙ rw (e, is_stuck_lem o r) (ground arith),
    left j ∙ rw (e, is_stuck_lem o r) (ground arith),
  ),
  λ j e. (found j ∙ rw e refl, left j ∙ rw e refl),
)
  where
    found :
        (j : String)
        → find row_key j (map as_pending (keep (is_stuck o) s.rows))
          ≡ Option.map as_pending (only row_key (is_stuck o) (find row_key j s.rows))
    found j =
        find-map row_key j as_pending (keep (is_stuck o) s.rows) (λ r. refl)
        ∙ ap (Option.map as_pending) (find-keep row_key j (is_stuck o) s.rows k)

    left :
        (j : String)
        → find row_key j (map (reset_stuck o) s.rows)
          ≡ Option.map (reset_stuck o) (find row_key j s.rows)
    left j = find-map row_key j (reset_stuck o) s.rows (λ r. ground arith)

pending_excluded : (b : Bool) → includes "pending" (statuses_for b false) ≡ false
unfolding statuses_for
pending_excluded true = refl
pending_excluded false = refl

not_stuck_after :
    (o : RecoverOptions) (r : Job)
    → o.include_pending ≡ some false
    → is_stuck o (reset_stuck o r) ≡ false
not_stuck_after o r h = elim (Bool-cases (is_stuck o r)) [
  | inl e ↦ rw (e, h) (pending_excluded (unless_false o.include_processing))
  | inr e ↦ rw e e
]

-- What a recovery has taken once is not stuck for a second one, if pending jobs do not count.
keep-reset :
    (o : RecoverOptions) (rs : List Job)
    → o.include_pending ≡ some false
    → keep (is_stuck o) (map (reset_stuck o) rs) ≡ []
keep-reset o [] h = refl
keep-reset o (r ∷ rs) h = rw (not_stuck_after o r h) (keep-reset o rs h)

again :
    (s : SqliteStore) (o : RecoverOptions)
    → o.include_pending ≡ some false
    → s.online ≡ true
    → let s' : SqliteStore = record s { rows = map (reset_stuck o) s.rows } in
      recover_stuck_jobs s' o ≡ ok ([], s')
again s o p e =
    let none_left = keep-reset o s.rows p in
    rw (recover_lem (record s { rows = map (reset_stuck o) s.rows }) o e, none_left)
      (rw (reset_none o (map (reset_stuck o) s.rows) none_left) refl)

-- Where pending jobs do not count as lost, a second recovery right after a successful first one
-- finds nothing and changes nothing.
recover_twice :
    (s s' : SqliteStore) (o : RecoverOptions) (jobs : List Job)
    → o.include_pending ≡ some false
    → recover_stuck_jobs s o ≡ ok (jobs, s')
    → recover_stuck_jobs s' o ≡ ok ([], s')
recover_twice s s' o jobs p h = elim (Bool-cases s.online) [
  | inl e ↦
      let q : record s { rows = map (reset_stuck o) s.rows } ≡ s' = cc (recover_lem s o e, h) in
      rw q at (again s o p e)
  | inr e ↦ absurd (unfold recover_stuck_jobs in ground (arith, e, h))
]

-- A stuck row is handed back.
pub handed-keep :
    (o : RecoverOptions) (id : String) (rs : List Job) (r : Job)
    → find row_key id rs ≡ some r
    → is_stuck o r ≡ true
    → handed_back id (map as_pending (keep (is_stuck o) rs)) ≡ true
handed-keep o id [] r e h = cc
handed-keep o id (x ∷ rs) r e h = elim (Bool-cases (x.id == id)) [
  | inl same ↦
      let here : x ≡ r = ground (arith, e, same) in rw (ap (is_stuck o) here ∙ h) (rw same refl)
  | inr other ↦ elim (Bool-cases (is_stuck o x)) [
    | inl stuck ↦ rw stuck (rw other (handed-keep o id rs r (ground (arith, e, other)) h))
    | inr not_stuck ↦ rw not_stuck (handed-keep o id rs r (ground (arith, e, other)) h)
  ]
]
