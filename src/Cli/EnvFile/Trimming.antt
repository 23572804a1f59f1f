-- ===== src/Cli/EnvFile/Trimming.antt =====
-- envFile.ts: cutting a text into lines, joining and trimming it.
use mathlib.Core.List.{append_assoc}
use queueway.Base.{
  ◌+◌, length, leb, is_empty, Bool, join_lines, starts_line, ◌&&◌, inr, arith, inl, nat_eq, ◌∙◌,
  false, Bool-cases, sym, true, ap, is_space_code, [], ◌++◌, All, ◌≡◌, onto_first, trim_end, ◌∷◌, ℕ,
  split_lines, List, refl,
}
use queueway.Cli.EnvFile.Reading.{empty_lem}
use queueway.Cli.EnvFile.{squash_end, trim_newlines}

-- A text goes on with the first of these lines.
abbrev pub after : List ℕ → List (List ℕ) → List (List ℕ)
after p [] = p ∷ []
after p (l ∷ ls) = (p ++ l) ∷ ls

pub after-onto_first :
    (p : List ℕ) (c : ℕ) (ls : List (List ℕ)) → after p (onto_first c ls) ≡ after (p ++ c ∷ []) ls
after-onto_first p c [] = refl
after-onto_first p c (l ∷ ls) = ap (λ x. x ∷ ls) (sym (append_assoc p (c ∷ []) l))

abbrev pub IsBlank : List ℕ → Type 0
IsBlank s = All (λ c. is_space_code c ≡ true) s

pub trim_end-blank : (p w : List ℕ) → IsBlank w → trim_end (p ++ w) ≡ trim_end p
trim_end-blank [] [] h = refl
trim_end-blank [] (c ∷ w) h = rw (h.0, trim_end-blank [] w h.1) refl
trim_end-blank (c ∷ p) w h = rw (trim_end-blank p w h) refl

pub no_break : (c : ℕ) → is_space_code c ≡ false → (nat_eq c 10 ≡ false) × (nat_eq c 13 ≡ false)
unfolding is_space_code
no_break c h = (ground arith, ground arith)

-- A line has no line break in it.
abbrev pub IsLine : List ℕ → Type 0
IsLine l = All (λ c. nat_eq c 10 ≡ false) l

pub and_false : (b : Bool) → (b && false) ≡ false
and_false true = refl
and_false false = refl

newline_is_blank : (c : ℕ) → nat_eq c 10 ≡ true → is_space_code c ≡ true
unfolding is_space_code
newline_is_blank c h = ground arith

pub return_blank : (c : ℕ) → nat_eq c 13 ≡ true → is_space_code c ≡ true
unfolding is_space_code
return_blank c h = ground arith

pub join-cons :
    (c : ℕ) (l : List ℕ) (ls : List (List ℕ)) → join_lines ((c ∷ l) ∷ ls) ≡ c ∷ join_lines (l ∷ ls)
join-cons c l [] = refl
join-cons c l (m ∷ ms) = refl

pub split-nil : split_lines [] ≡ [] ∷ []
unfolding split_lines
split-nil = refl

pub split-newline : (s : List ℕ) → split_lines (10 ∷ s) ≡ [] ∷ split_lines s
unfolding split_lines
split-newline s = refl

pub split-return :
    (c : ℕ) (s : List ℕ) → nat_eq c 13 ≡ true → split_lines (c ∷ 10 ∷ s) ≡ split_lines (10 ∷ s)
unfolding split_lines
split-return c s h = ground arith

pub split-cons :
    (c : ℕ) (s : List ℕ)
    → nat_eq c 10 ≡ false
    → (nat_eq c 13 && starts_line s) ≡ false
    → split_lines (c ∷ s) ≡ onto_first c (split_lines s)
unfolding split_lines
split-cons c s h k = rw (h, k) refl

pub newline_blank : is_space_code 10 ≡ true
unfolding is_space_code
newline_blank = refl

-- A text is what is left after trimming, and blanks.
pub trim_end_parts : (s : List ℕ) → (w : List ℕ) × IsBlank w × (s ≡ trim_end s ++ w)
trim_end_parts [] = ([], tt, refl)
trim_end_parts (c ∷ s) =
    let (w, h, e) = trim_end_parts s in
    elim (Bool-cases (is_space_code c)) [
      | inr n ↦ rw n (w, h, ap (◌∷◌ c) e)
      | inl b ↦ elim (Bool-cases (is_empty (trim_end s))) [
        | inr n ↦ rw (b, n) (w, h, ap (◌∷◌ c) e)
        | inl n ↦
            rw (b, n) (c ∷ w, (b, h), ap (◌∷◌ c) (e ∙ ap (λ x. x ++ w) (empty_lem (trim_end s) n)))
      ]
    ]

trim_end-trim_newlines : (s : List ℕ) → trim_end (trim_newlines s) ≡ trim_end s
trim_end-trim_newlines [] = refl
trim_end-trim_newlines (c ∷ s) = elim (Bool-cases (nat_eq c 10)) [
  | inr n ↦ rw n (rw (trim_end-trim_newlines s) refl)
  | inl b ↦ elim (Bool-cases (is_empty (trim_newlines s))) [
    | inr n ↦ rw (b, n) (rw (trim_end-trim_newlines s) refl)
    | inl n ↦
        let left : trim_end s ≡ [] =
          sym (trim_end-trim_newlines s) ∙ ap trim_end (empty_lem (trim_newlines s) n) in
        rw (b, n) (rw (left, newline_is_blank c b) refl)
  ]
]

pub trim_end-squash_end : (s : List ℕ) → trim_end (squash_end s) ≡ trim_end s
unfolding squash_end
trim_end-squash_end s = elim (Bool-cases (leb (length (trim_newlines s) + 3) (length s))) [
  | inl e ↦ rw e (
      trim_end-blank (trim_newlines s) (10 ∷ 10 ∷ []) (newline_blank, (newline_blank, tt))
      ∙ trim_end-trim_newlines s)
  | inr e ↦ rw e refl
]
