-- ===== src/Cli/EnvFile/Naming.antt =====
-- envFile.ts: the project's name in its containers, its database and its role. `toLowerCase` is a
-- parameter.
use queueway.Base.{
  arith, codes, inr, true, is_empty, zero, not, inl, ◌≡◌, [], Bool-cases, some, none, length,
  nat_eq, ◌&&◌, suc, if◌then◌else◌, ◌||◌, take, leb, All, ◌∷◌, Option, false, List, ℕ, refl, Bool,
}

abbrev pub is_digit : ℕ → Bool
is_digit c = leb 48 c && leb c 57

abbrev pub is_slug_char : ℕ → Bool
is_slug_char c = (leb 97 c && leb c 122) || is_digit c

abbrev pub starts_underscore : List ℕ → Bool
starts_underscore [] = false
starts_underscore (c ∷ s) = nat_eq c 95

-- `.replace(/[^a-z0-9]+/g, "_")`
abbrev pub underscored : List ℕ → List ℕ
underscored [] = []
underscored (c ∷ s) =
    let rest = underscored s in
    if is_slug_char c then c ∷ rest else if starts_underscore rest then rest else 95 ∷ rest

abbrev pub trim_start_underscores : List ℕ → List ℕ
trim_start_underscores [] = []
trim_start_underscores (c ∷ s) =
    let rest = trim_start_underscores s in if nat_eq c 95 then rest else c ∷ s

abbrev pub trim_end_underscores : List ℕ → List ℕ
trim_end_underscores [] = []
trim_end_underscores (c ∷ s) =
    let rest = trim_end_underscores s in if nat_eq c 95 && is_empty rest then [] else c ∷ rest

abbrev pub after_slash : List ℕ → Option (List ℕ)
after_slash [] = none
after_slash (c ∷ s) = if nat_eq c 47 then some s else after_slash s

abbrev pub or_whole : List ℕ → Option (List ℕ) → List ℕ
or_whole s none = s
or_whole s (some rest) = rest

-- `.replace(/^@[^/]+\//, "")`
abbrev pub unscoped : List ℕ → List ℕ
unscoped [] = []
unscoped (c ∷ []) = c ∷ []
unscoped (c ∷ d ∷ s) =
    if nat_eq c 64 && not (nat_eq d 47) then or_whole (c ∷ d ∷ s) (after_slash s) else c ∷ d ∷ s

abbrev pub starts_digit : List ℕ → Bool
starts_digit [] = false
starts_digit (c ∷ s) = is_digit c

-- The package's name is `none` where there is no package.json, it does not parse or it has no name.
abbrev pub project_name : List ℕ → Option (List ℕ) → List ℕ
project_name folder none = folder
project_name folder (some name) = unscoped name

unfoldable pub project_slug : (List ℕ → List ℕ) → List ℕ → Option (List ℕ) → List ℕ
project_slug lower folder given =
    let slug = take 40 (
      trim_end_underscores
        (trim_start_underscores (underscored (lower (project_name folder given))))) in
    if starts_digit slug then 112 ∷ slug else if is_empty slug then codes "app" else slug

abbrev IsSlugText : List ℕ → Type 0
IsSlugText s = All (λ c. (is_slug_char c || nat_eq c 95) ≡ true) s

-- A name that needs no quotes in SQL and fits in an identifier.
abbrev pub IsIdentifier : List ℕ → Type 0
IsIdentifier s =
    All (λ c. (is_slug_char c || nat_eq c 95) ≡ true) s
    × (is_empty s ≡ false)
    × (starts_digit s ≡ false)
    × (leb (length s) 41 ≡ true)

IsSlugText-underscored : (s : List ℕ) → IsSlugText (underscored s)
IsSlugText-underscored [] = tt
IsSlugText-underscored (c ∷ s) =
    let below = IsSlugText-underscored s in
    elim (Bool-cases (is_slug_char c)) [
      | inl e ↦ rw e (rw e refl, below)
      | inr e ↦ elim (Bool-cases (starts_underscore (underscored s))) [
        | inl f ↦ rw (e, f) below
        | inr f ↦ rw (e, f) (refl, below)
      ]
    ]

IsSlugText-trim_start : (s : List ℕ) → IsSlugText s → IsSlugText (trim_start_underscores s)
IsSlugText-trim_start [] h = tt
IsSlugText-trim_start (c ∷ s) h = elim (Bool-cases (nat_eq c 95)) [
  | inl e ↦ rw e (IsSlugText-trim_start s h.1)
  | inr e ↦ rw e h
]

IsSlugText-trim_end : (s : List ℕ) → IsSlugText s → IsSlugText (trim_end_underscores s)
IsSlugText-trim_end [] h = tt
IsSlugText-trim_end (c ∷ s) h =
    elim (Bool-cases (nat_eq c 95 && is_empty (trim_end_underscores s))) [
      | inl e ↦ rw e tt
      | inr e ↦ rw e (h.0, IsSlugText-trim_end s h.1)
    ]

IsSlugText-take : (n : ℕ) (s : List ℕ) → IsSlugText s → IsSlugText (take n s)
IsSlugText-take zero s h = tt
IsSlugText-take (suc n) [] h = tt
IsSlugText-take (suc n) (c ∷ s) h = (h.0, IsSlugText-take n s h.1)

length-take_le : (n : ℕ) (s : List ℕ) → leb (length (take n s)) n ≡ true
length-take_le zero s = refl
length-take_le (suc n) [] = ground arith
length-take_le (suc n) (c ∷ s) = ground (arith, length-take_le n s)

IsIdentifier-finish :
    (s : List ℕ)
    → IsSlugText s
    → leb (length s) 40 ≡ true
    → IsIdentifier (if starts_digit s then 112 ∷ s else if is_empty s then codes "app" else s)
IsIdentifier-finish [] h l = ((refl, (refl, (refl, tt))), refl, refl, refl)
IsIdentifier-finish (c ∷ s) h l = elim (Bool-cases (is_digit c)) [
  | inl e ↦ rw e ((refl, h), refl, refl, ground (arith, l))
  | inr e ↦ rw e (h, refl, e, ground (arith, l))
]

-- Whatever the folder and the package are called, the name of the project is made of lower-case
-- letters, digits and underscores, is not empty, does not start with a digit and has at most 41
-- characters.
pub project_slug-IsIdentifier :
    (lower : List ℕ → List ℕ) (folder : List ℕ) (given : Option (List ℕ))
    → IsIdentifier (project_slug lower folder given)
unfolding project_slug
project_slug-IsIdentifier lower folder given =
    let s = underscored (lower (project_name folder given)) in
    let t = trim_end_underscores (trim_start_underscores s) in
    IsIdentifier-finish (take 40 t)
      (IsSlugText-take 40 t (
        IsSlugText-trim_end (trim_start_underscores s)
          (IsSlugText-trim_start s (IsSlugText-underscored (lower (project_name folder given))))))
      (length-take_le 40 t)
