-- ===== src/Base/Codes.antt =====
-- Texts as lists of the numbers of their characters, where the program walks through them.
use queueway.Base.Tests.{ltb, if◌then◌else◌, nat_eq, leb}
use Prim.Native.Nat.{ℕ, zero, suc, ◌+◌, ◌/◌, ◌%◌}
use mathlib.Core.Bool.{◌||◌, ◌&&◌, false, true, Bool}
use mathlib.Core.Option.{some, none, Option}
use mathlib.Core.List.{◌++◌, ◌∷◌, [], List}
use Prim.Native.Char.{code}
use Prim.Native.String.{String}

-- `\s` of a regular expression, by the number of the character.
unfoldable pub is_space_code : ℕ → Bool
is_space_code n =
    (leb 9 n && leb n 13)
    || nat_eq n 32
    || nat_eq n 160
    || nat_eq n 5760
    || (leb 8192 n && leb n 8202)
    || nat_eq n 8232
    || nat_eq n 8233
    || nat_eq n 8239
    || nat_eq n 8287
    || nat_eq n 12288
    || nat_eq n 65279

abbrev pub codes : String → List ℕ
codes String.[] = []
codes (String.◌∷◌ c s) = code c ∷ codes s

abbrev pub is_empty {ℓ} : {A : Type ℓ} → List A → Bool
is_empty [] = true
is_empty (x ∷ xs) = false

-- `a === b`
unfoldable pub text_eq : List ℕ → List ℕ → Bool
text_eq [] [] = true
text_eq (x ∷ xs) (y ∷ ys) = nat_eq x y && text_eq xs ys
text_eq _ _ = false

-- What follows a prefix, `none` where the text has another beginning.
abbrev pub after_prefix : List ℕ → List ℕ → Option (List ℕ)
after_prefix [] s = some s
after_prefix (p ∷ ps) [] = none
after_prefix (p ∷ ps) (c ∷ s) = if nat_eq p c then after_prefix ps s else none

abbrev pub skip_spaces : List ℕ → List ℕ
skip_spaces [] = []
skip_spaces (c ∷ s) = let rest = skip_spaces s in if is_space_code c then rest else c ∷ s

-- `s.trimEnd()`, `s.replace(/\s*$/, "")`
abbrev pub trim_end : List ℕ → List ℕ
trim_end [] = []
trim_end (c ∷ s) =
    let rest = trim_end s in if is_space_code c && is_empty rest then [] else c ∷ rest

abbrev pub trim : List ℕ → List ℕ
trim s = trim_end (skip_spaces s)

-- A new first line for an empty text, else the character goes to the first line.
abbrev pub onto_first : ℕ → List (List ℕ) → List (List ℕ)
onto_first c [] = (c ∷ []) ∷ []
onto_first c (l ∷ ls) = (c ∷ l) ∷ ls

abbrev pub starts_line : List ℕ → Bool
starts_line [] = false
starts_line (c ∷ s) = nat_eq c 10

-- `s.split(/\r?\n/)`
unfoldable pub split_lines : List ℕ → List (List ℕ)
split_lines [] = [] ∷ []
split_lines (c ∷ s) =
    let rest = split_lines s in
    if nat_eq c 10
    then [] ∷ rest
    else if nat_eq c 13 && starts_line s
    then rest
    else onto_first c rest

-- `lines.join("\n")`
abbrev pub join_lines : List (List ℕ) → List ℕ
join_lines [] = []
join_lines (l ∷ []) = l
join_lines (l ∷ m ∷ ls) = l ++ 10 ∷ join_lines (m ∷ ls)

-- `String(n)` of a number of at most that many digits.
abbrev pub digits : ℕ → ℕ → List ℕ
digits zero n = []
digits (suc places) n = elim (ltb n 10) [
  | true ↦ (48 + n) ∷ []
  | false ↦ digits places (n / 10) ++ (48 + n % 10) ∷ []
]
