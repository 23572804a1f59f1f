-- ===== src/Dashboard/Confirmed.antt =====
-- packages/dashboard/src/app/page.tsx: the dialog that confirms a deletion, among all that may happen.
use queueway.Base.{
  inr, inl, sym, Bool-cases, ◌≡◌, arith, refl, Bool, true, false, ◌||◌, String, ◌==◌, Option, none,
  some, List, [], ◌∷◌, if◌then◌else◌,
}
use queueway.Types.{JobStatus}
use queueway.Dashboard.Content.{
  Content, Loaded, refresh, set_filter, begin_retry, end_retry, begin_delete, end_delete,
  offers_retry, offers_delete,
}

pub data Sent : Type 0 where
  retry delete : String → Sent

-- What the user does, and the answers as they arrive.
pub data PageEvent : Type 0 where
  filter_chosen : Option JobStatus → PageEvent
  refreshed : Loaded → PageEvent
  retry_clicked : String → PageEvent
  retry_ended : Option Loaded → PageEvent
  delete_clicked : String → PageEvent
  dialog_closed : PageEvent
  delete_confirmed : PageEvent
  delete_ended : Option Loaded → PageEvent

-- The content, and the requests that it has sent, the newest first.
pub record Screen : Type 0 where
  pub content : Content
  pub sent : List Sent

abbrev pub confirm_delete : Option String → Screen → Screen
confirm_delete none s = s
confirm_delete (some id) s = record {
  content = begin_delete id s.content;
  sent = delete id ∷ s.sent;
}

unfoldable pub react : PageEvent → Screen → Screen
react (filter_chosen f) s = record s { content = set_filter f s.content }
react (refreshed loaded) s = record s { content = (refresh loaded s.content).1 }
react (retry_clicked id) s =
    if offers_retry id s.content
    then record { content = begin_retry id s.content; sent = retry id ∷ s.sent }
    else s
react (retry_ended loaded) s = record s { content = (end_retry loaded s.content).1 }
react (delete_clicked id) s =
    if offers_delete id s.content
    then record s { content = record s.content { confirm_delete_id = some id } }
    else s
react dialog_closed s = record s { content = record s.content { confirm_delete_id = none } }
react delete_confirmed s = confirm_delete s.content.confirm_delete_id s
react (delete_ended loaded) s = record s { content = (end_delete loaded s.content).1 }

unfoldable pub react_all : List PageEvent → Screen → Screen
react_all [] s = s
react_all (e ∷ es) s = react_all es (react e s)

abbrev pub deletes : String → List Sent → Bool
deletes id [] = false
deletes id (retry x ∷ rs) = deletes id rs
deletes id (delete x ∷ rs) = x == id || deletes id rs

-- What the events alone say: the deletion of the job was asked for, and then confirmed before the
-- dialog was closed, be it by the user or by the end of another deletion.
abbrev pub confirms : String → (asked : Bool) → List PageEvent → Bool
confirms id asked [] = false
confirms id asked (filter_chosen f ∷ es) = confirms id asked es
confirms id asked (refreshed loaded ∷ es) = confirms id asked es
confirms id asked (retry_clicked x ∷ es) = confirms id asked es
confirms id asked (retry_ended loaded ∷ es) = confirms id asked es
confirms id asked (delete_clicked x ∷ es) = confirms id (asked || x == id) es
confirms id asked (dialog_closed ∷ es) = confirms id false es
confirms id asked (delete_confirmed ∷ es) = asked || confirms id asked es
confirms id asked (delete_ended loaded ∷ es) = confirms id false es

abbrev asks : Option String → String → Bool
asks none id = false
asks (some x) id = x == id

refresh_keeps_dialog :
    (loaded : Loaded) (c : Content) → (refresh loaded c).1.confirm_delete_id ≡ c.confirm_delete_id
unfolding refresh
refresh_keeps_dialog (Loaded.unreached e) c = refl
refresh_keeps_dialog (Loaded.answered s j h) c = ground arith

end_retry_keeps_dialog :
    (loaded : Option Loaded) (c : Content)
    → (end_retry loaded c).1.confirm_delete_id ≡ c.confirm_delete_id
unfolding end_retry
end_retry_keeps_dialog none c = refl
end_retry_keeps_dialog (some loaded) c = refresh_keeps_dialog loaded c

end_delete_closes :
    (loaded : Option Loaded) (c : Content) → (end_delete loaded c).1.confirm_delete_id ≡ none
unfolding end_delete
end_delete_closes none c = refl
end_delete_closes (some loaded) c = refl

-- The open dialog is one that was asked for.
abbrev Covers : String → Bool → Screen → Type 0
Covers id asked s = asks s.content.confirm_delete_id id ≡ true → asked ≡ true

or_three :
    (a b c d : Bool) → (a || b) ≡ true → (a ≡ true → (c || d) ≡ true) → (c || (d || b)) ≡ true
or_three a b c d h k = ground (arith, h, k)

retry_click_lem :
    (id x : String) (s : Screen)
    → let s' = react (retry_clicked x) s in
      (deletes id s'.sent ≡ deletes id s.sent)
      × (s'.content.confirm_delete_id ≡ s.content.confirm_delete_id)
unfolding react begin_retry
retry_click_lem id x s = ground arith

delete_click_lem :
    (id x : String) (asked : Bool) (s : Screen)
    → Covers id asked s
    → let s' = react (delete_clicked x) s in
      (deletes id s'.sent ≡ deletes id s.sent) × Covers id (asked || x == id) s'
unfolding react
delete_click_lem id x asked s c = elim (Bool-cases (offers_delete x s.content)) [
  | inl e ↦ rw e (refl, λ p. ground (arith, p))
  | inr e ↦ rw e (refl, λ p. ground (arith, c p))
]

confirm_keeps_dialog :
    (o : Option String) (s : Screen)
    → (confirm_delete o s).content.confirm_delete_id ≡ s.content.confirm_delete_id
unfolding begin_delete
confirm_keeps_dialog none s = refl
confirm_keeps_dialog (some x) s = refl

confirm_sends :
    (id : String) (asked : Bool) (o : Option String) (s : Screen)
    → (asks o id ≡ true → asked ≡ true)
    → deletes id (confirm_delete o s).sent ≡ true
    → (deletes id s.sent || asked) ≡ true
confirm_sends id asked none s c p = ground (arith, p)
confirm_sends id asked (some x) s c p = ground (arith, p, c)

react_all_confirmed :
    (id : String) (asked : Bool) (es : List PageEvent) (s : Screen)
    → Covers id asked s
    → deletes id (react_all es s).sent ≡ true
    → (deletes id s.sent || confirms id asked es) ≡ true
unfolding react_all react begin_delete set_filter
react_all_confirmed id asked [] s c h = ground (arith, h)
react_all_confirmed id asked (filter_chosen f ∷ es) s c h = react_all_confirmed id asked es _ c h
react_all_confirmed id asked (refreshed loaded ∷ es) s c h =
    react_all_confirmed id asked es _ (rw (refresh_keeps_dialog loaded s.content) c) h
react_all_confirmed id asked (retry_clicked x ∷ es) s c h =
    let (d, k) = retry_click_lem id x s in rw (sym d) (react_all_confirmed id asked es _ (rw k c) h)
react_all_confirmed id asked (retry_ended loaded ∷ es) s c h =
    react_all_confirmed id asked es _ (rw (end_retry_keeps_dialog loaded s.content) c) h
react_all_confirmed id asked (delete_clicked x ∷ es) s c h =
    let (d, k) = delete_click_lem id x asked s c in
    rw (sym d) (react_all_confirmed id (asked || x == id) es _ k h)
react_all_confirmed id asked (dialog_closed ∷ es) s c h =
    react_all_confirmed id false es _ (λ p. p) h
react_all_confirmed id asked (delete_confirmed ∷ es) s c h =
    let o = s.content.confirm_delete_id in
    or_three (deletes id (confirm_delete o s).sent) _ _ asked
      (react_all_confirmed id asked es (confirm_delete o s) (rw (confirm_keeps_dialog o s) c) h)
      (confirm_sends id asked o s c)
react_all_confirmed id asked (delete_ended loaded ∷ es) s c h =
    react_all_confirmed id false es _ (rw (end_delete_closes loaded s.content) (λ p. p)) h

-- A DELETE request is sent only for a job whose deletion was asked for in its row and confirmed
-- after that, while neither the user nor the end of another deletion had closed the dialog.
pub deletes_confirmed :
    (id : String) (es : List PageEvent) (c : Content)
    → c.confirm_delete_id ≡ none
    → deletes id (react_all es (record { content = c; sent = [] })).sent ≡ true
    → confirms id false es ≡ true
deletes_confirmed id es c n h =
    react_all_confirmed id false es (record { content = c; sent = [] }) (rw n (λ p. p)) h
