-- ===== src/Auth/Keeps.antt =====
-- What the statements of AuthStore.ts leave true of the login storage, and how it composes.
use queueway.Base.{
  true, false, suc, none, [], ap, ◌*◌, ◌∷◌, some, err, length-append, ◌≤◌, ok, ◌≡◌, arith, ◌>>=◌,
  continue, if◌then◌else◌, length, ℕ, List, Option, Bool, Result, String, Exec, pure, refl,
}
use queueway.Store.Table.{rewrite, find, IsKeyed, IsKeyed-append, IsKeyed-without}
use queueway.Auth.Accounts.{
  minute, day, new_token, with_password, by_id, by_token, consumed, find_user_by_id, Token,
  create_session, find_session_user, find_user_by_email, consume_password_reset,
  create_password_reset, AuthStore, delete_session, update_password, create_user,
}
use queueway.Auth.Routes.{answered, caught, Reply}

-- The dashboard has one account at most, and no token stands twice.
abbrev pub IsSound : AuthStore → Type 0
IsSound s = (length s.users ≤ 1) × IsKeyed by_token s.sessions × IsKeyed by_token s.resets

pub record Keeps {A : Type 0} (m : Exec AuthStore A) : Type 0 where
  pub kept : (s : AuthStore) → IsSound s → IsSound (m s).1

pub pure-Keeps : {A : Type 0} (a : A) → Keeps (pure a)
pure-Keeps a = record { kept = λ s h. h }

pub continue-IsSound :
    {A B : Type 0} (r : Result A) (f : A → Exec AuthStore B) (s : AuthStore)
    → ((a : A) → Keeps (f a))
    → IsSound s
    → IsSound (continue r f s).1
continue-IsSound (ok a) f s k h = (k a).kept s h
continue-IsSound (err e) f s k h = h

pub bind-Keeps :
    {A B : Type 0} {m : Exec AuthStore A} {f : A → Exec AuthStore B}
    → Keeps m
    → ((a : A) → Keeps (f a))
    → Keeps (m >>= f)
bind-Keeps {m = m} {f = f} k l = record {
  kept = λ s h. continue-IsSound (m s).0 f (m s).1 l (k.kept s h);
}

answered-IsSound :
    (text : String) (p : Result Reply × AuthStore) → IsSound p.1 → IsSound (answered text p).1
answered-IsSound text (ok r, s) h = h
answered-IsSound text (err e, s) h = h

pub caught-Keeps : (text : String) {m : Exec AuthStore Reply} → Keeps m → Keeps (caught text m)
caught-Keeps text {m = m} k = record { kept = λ s h. answered-IsSound text (m s) (k.kept s h) }

pub find_user_by_email-Keeps :
    (normalize : String → String) (email : String) → Keeps (find_user_by_email normalize email)
unfolding find_user_by_email
find_user_by_email-Keeps normalize email = record { kept = λ s h. ground (arith, h) }

pub find_session_user-Keeps : (token : String) → Keeps (find_session_user token)
unfolding find_session_user find_user_by_id
find_session_user-Keeps token = record { kept = λ s h. ground (arith, h) }

length-rewrite :
    {R : Type 0} (key : R → String) (k : String) (f : R → R) (rs : List R)
    → length (rewrite key k f rs) ≡ length rs
length-rewrite key k f [] = refl
length-rewrite key k f (r ∷ rs) = ap suc (length-rewrite key k f rs)

pub update_password-Keeps : (id hash : String) → Keeps (update_password id hash)
unfolding update_password
update_password-Keeps id hash = record {
  kept = λ s h. ground (arith, h, length-rewrite by_id id (with_password hash) s.users);
}

pub create_session-Keeps : (token id : String) (days : ℕ) → Keeps (create_session token id days)
unfolding create_session
create_session-Keeps token id days = record {
  kept = λ s (a, b, c).
      ground
        (arith, a, c, IsKeyed-append by_token (new_token token id s.now (days * day)) s.sessions b);
}

pub delete_session-Keeps : (token : String) → Keeps (delete_session token)
unfolding delete_session
delete_session-Keeps token = record {
  kept = λ s (a, b, c). ground (arith, a, c, IsKeyed-without by_token token s.sessions b);
}

pub create_password_reset-Keeps :
    (token id : String) (minutes : ℕ) → Keeps (create_password_reset token id minutes)
unfolding create_password_reset
create_password_reset-Keeps token id minutes = record {
  kept = λ s (a, b, c). ground (
    arith,
    a,
    b,
    IsKeyed-append by_token (new_token token id s.now (minutes * minute)) s.resets c,
  );
}

consumed-IsSound :
    (deletes : Bool) (token : String) (o : Option Token) (s : AuthStore)
    → IsSound s
    → IsSound (consumed deletes token o s).1
consumed-IsSound deletes token none s h = h
consumed-IsSound true token (some t) s (a, b, c) = (a, b, IsKeyed-without by_token token s.resets c)
consumed-IsSound false token (some t) s h = h

pub consume_password_reset-Keeps :
    (deletes : Bool) (token : String) → Keeps (consume_password_reset deletes token)
unfolding consume_password_reset
consume_password_reset-Keeps deletes token = record {
  kept =
      λ s h. ground (arith, h, consumed-IsSound deletes token (find by_token token s.resets) s h);
}

pub if-Keeps :
    {A : Type 0} (b : Bool) {m n : Exec AuthStore A}
    → Keeps m
    → Keeps n
    → Keeps (if b then m else n)
if-Keeps true k l = k
if-Keeps false k l = l

-- Only where there is no account does creating one keep to one account.
pub create_user-IsSound :
    (normalize : String → String) (id email hash : String) (s : AuthStore)
    → length s.users ≡ 0
    → IsSound s
    → IsSound (create_user normalize id email hash s).1
unfolding create_user
create_user-IsSound normalize id email hash s e h = ground (
  arith,
  h,
  e,
  length-append s.users
      (record { id = id; email = normalize email; password_hash = hash; created_at = s.now } ∷ []),
)
