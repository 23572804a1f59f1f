-- ===== src/Store/Table.antt =====
-- The tables that the stores keep, as lists of rows with a text key: a JavaScript `Map` in its
-- order of insertion, or an SQL table with a primary key.
use mathlib.Core.Option
use queueway.Base.{
  keep, Bool, map, String, Option, none, some, List, [], ◌∷◌, ◌++◌, ◌≡◌, refl, arith, ◌==◌, eq_iff,
  if◌then◌else◌,
}

module _ {R : Type 0} (key : R → String) where
  -- `map.get(k)`, `SELECT … WHERE id = k`
  abbrev pub find : String → List R → Option R
  find k [] = none
  find k (r ∷ rs) = if key r == k then some r else find k rs

  -- `UPDATE … WHERE id = k`
  abbrev pub rewrite : String → (R → R) → List R → List R
  rewrite k f [] = []
  rewrite k f (r ∷ rs) = (if key r == k then f r else r) ∷ rewrite k f rs

  -- `map.delete(k)`, `DELETE … WHERE id = k`
  abbrev pub without : String → List R → List R
  without k [] = []
  without k (r ∷ rs) = let rest = without k rs in if key r == k then rest else r ∷ rest

  -- `map.set(key r, r)`: in the place of the old entry, or at the end.
  abbrev pub put : R → List R → List R
  put r [] = r ∷ []
  put r (x ∷ xs) = if key x == key r then r ∷ xs else x ∷ put r xs

  pub find-rewrite :
      (k j : String) (f : R → R) (rs : List R)
      → ((r : R) → key (f r) ≡ key r)
      → find j (rewrite k f rs) ≡ (if k == j then Option.map f (find j rs) else find j rs)
  find-rewrite k j f [] h = ground arith
  find-rewrite k j f (r ∷ rs) h = ground (
    arith,
    find-rewrite k j f rs h,
    h r,
    eq_iff (key r) k,
    eq_iff (key r) j,
    eq_iff (key (f r)) j,
    eq_iff k j,
  )

  pub find-without :
      (k j : String) (rs : List R) → find j (without k rs) ≡ (if k == j then none else find j rs)
  find-without k j [] = ground arith
  find-without k j (r ∷ rs) =
      ground (arith, find-without k j rs, eq_iff (key r) k, eq_iff (key r) j, eq_iff k j)

  pub find-put :
      (r : R) (j : String) (rs : List R)
      → find j (put r rs) ≡ (if key r == j then some r else find j rs)
  find-put r j [] = refl
  find-put r j (x ∷ xs) =
      ground (arith, find-put r j xs, eq_iff (key x) (key r), eq_iff (key x) j, eq_iff (key r) j)

  pub find-append :
      (r : R) (j : String) (rs : List R)
      → find (key r) rs ≡ none
      → find j (rs ++ r ∷ []) ≡ (if key r == j then some r else find j rs)
  find-append r j [] h = refl
  find-append r j (x ∷ xs) h =
      ground (arith, find-append r j xs, eq_iff (key x) (key r), eq_iff (key x) j, eq_iff (key r) j)

  -- No two rows have the same key.
  abbrev pub IsKeyed : List R → Type 0
  IsKeyed [] = Unit
  IsKeyed (r ∷ rs) = (find (key r) rs ≡ none) × IsKeyed rs

  abbrev pub only : (R → Bool) → Option R → Option R
  only p none = none
  only p (some r) = if p r then some r else none

  pub find-map :
      (j : String) (f : R → R) (rs : List R)
      → ((r : R) → key (f r) ≡ key r)
      → find j (map f rs) ≡ Option.map f (find j rs)
  find-map j f [] h = refl
  find-map j f (r ∷ rs) h = rw (h r) (ground (arith, find-map j f rs h))

  find-keep-none :
      (j : String) (p : R → Bool) (rs : List R) → find j rs ≡ none → find j (keep p rs) ≡ none
  find-keep-none j p [] h = refl
  find-keep-none j p (r ∷ rs) h = ground (arith, find-keep-none j p rs)

  pub find-keep :
      (j : String) (p : R → Bool) (rs : List R)
      → IsKeyed rs
      → find j (keep p rs) ≡ only p (find j rs)
  find-keep j p [] h = refl
  find-keep j p (r ∷ rs) h =
      ground (arith, find-keep j p rs h.1, find-keep-none j p rs, eq_iff (key r) j)

  pub IsKeyed-keep : (p : R → Bool) (rs : List R) → IsKeyed rs → IsKeyed (keep p rs)
  IsKeyed-keep p [] h = tt
  IsKeyed-keep p (r ∷ rs) h = ground (arith, IsKeyed-keep p rs h.1, find-keep-none (key r) p rs h.0)

  pub IsKeyed-map :
      (f : R → R) (rs : List R) → ((r : R) → key (f r) ≡ key r) → IsKeyed rs → IsKeyed (map f rs)
  IsKeyed-map f [] k h = tt
  IsKeyed-map f (r ∷ rs) k h = (rw (k r, find-map (key r) f rs k, h.0) refl, IsKeyed-map f rs k h.1)

  pub IsKeyed-rewrite :
      (k : String) (f : R → R) (rs : List R)
      → ((r : R) → key (f r) ≡ key r)
      → IsKeyed rs
      → IsKeyed (rewrite k f rs)
  IsKeyed-rewrite k f [] e h = tt
  IsKeyed-rewrite k f (r ∷ rs) e h =
      ground (arith, IsKeyed-rewrite k f rs e h.1, find-rewrite k (key r) f rs e, e r, h.0)

  pub IsKeyed-without : (k : String) (rs : List R) → IsKeyed rs → IsKeyed (without k rs)
  IsKeyed-without k [] h = tt
  IsKeyed-without k (r ∷ rs) h = ground (arith, IsKeyed-without k rs h.1, find-without k (key r) rs)

  pub IsKeyed-append :
      (r : R) (rs : List R) → IsKeyed rs → find (key r) rs ≡ none → IsKeyed (rs ++ r ∷ [])
  IsKeyed-append r [] h k = (refl, tt)
  IsKeyed-append r (x ∷ xs) h k = ground (
    arith,
    IsKeyed-append r xs h.1,
    find-append r (key x) xs,
    eq_iff (key x) (key r),
    eq_iff (key r) (key x),
  )

  IsKeyed-put : (r : R) (rs : List R) → IsKeyed rs → IsKeyed (put r rs)
  IsKeyed-put r [] h = (refl, tt)
  IsKeyed-put r (x ∷ xs) h = ground (
    arith,
    IsKeyed-put r xs h.1,
    find-put r (key x) xs,
    eq_iff (key x) (key r),
    eq_iff (key r) (key x),
  )

-- The same, where the function gives rows of another table with the same keys.
pub find-map_across :
    {R Q : Type 0} (key : R → String) (key' : Q → String) (g : R → Q) (j : String) (rs : List R)
    → ((r : R) → key' (g r) ≡ key r)
    → find key' j (map g rs) ≡ Option.map g (find key j rs)
find-map_across key key' g j [] h = refl
find-map_across key key' g j (r ∷ rs) h =
    rw (h r) (ground (arith, find-map_across key key' g j rs h))
