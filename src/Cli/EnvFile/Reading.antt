-- ===== src/Cli/EnvFile/Reading.antt =====
-- envFile.ts: reading a key does not depend on blanks at the end of a line.
use mathlib.Core.Option
use queueway.Base.{
  inr, ◌∙◌, ap, inl, ◌&&◌, none, arith, Bool-cases, nat_eq, [], sym, some, true, false, ◌∷◌, ◌≡◌,
  is_space_code, is_empty, All, skip_spaces, trim_end, after_prefix, ℕ, Bool, List, Option, refl,
}
use queueway.Cli.EnvFile.{
  is_equals, is_literal, is_meta, read_lines, after_equals, opens_value, assigns, value_of,
}

-- A key of letters, digits and such: it has no blank, no equals sign, and nothing that has a meaning
-- in a regular expression.
abbrev pub IsPlain : List ℕ → Type 0
IsPlain key = All (λ c. (is_space_code c ≡ false) × (nat_eq c 61 ≡ false) × (is_meta c ≡ false)) key

IsPlain-is_literal : (key : List ℕ) → IsPlain key → is_literal key ≡ true
IsPlain-is_literal [] h = refl
IsPlain-is_literal (c ∷ key) h = rw (h.0.2, IsPlain-is_literal key h.1) refl

pub assigns_lem :
    (regex : List ℕ → List ℕ → Bool) (key line : List ℕ)
    → IsPlain key
    → assigns regex key line ≡ opens_value (after_prefix key (skip_spaces line))
unfolding assigns
assigns_lem regex key line h = rw (IsPlain-is_literal key h) refl

pub empty_lem : (s : List ℕ) → is_empty s ≡ true → s ≡ []
empty_lem [] h = refl
empty_lem (c ∷ s) h = cc

skip-trim_end : (s : List ℕ) → skip_spaces (trim_end s) ≡ trim_end (skip_spaces s)
skip-trim_end [] = refl
skip-trim_end (c ∷ s) = elim (Bool-cases (is_space_code c)) [
  | inl e ↦ elim (Bool-cases (is_empty (trim_end s))) [
    | inl n ↦ rw (e, n) (sym (ap skip_spaces (empty_lem (trim_end s) n)) ∙ skip-trim_end s)
    | inr n ↦ rw (e, n, e) (skip-trim_end s)
  ]
  | inr e ↦ rw (e, e) refl
]

trim_end_idem : (s : List ℕ) → trim_end (trim_end s) ≡ trim_end s
trim_end_idem [] = refl
trim_end_idem (c ∷ s) = elim (Bool-cases (is_space_code c && is_empty (trim_end s))) [
  | inl e ↦ rw e refl
  | inr e ↦ rw e (rw (trim_end_idem s) (rw e refl))
]

pub eq_of_nat_eq : (a b : ℕ) → nat_eq a b ≡ true → a ≡ b
eq_of_nat_eq a b h = ground arith

pub equals_not_space : (c : ℕ) → nat_eq c 61 ≡ true → is_space_code c ≡ false
unfolding is_space_code
equals_not_space c h = ground arith

after_prefix-trim_end :
    (key s : List ℕ)
    → IsPlain key
    → after_prefix key (trim_end s) ≡ Option.map trim_end (after_prefix key s)
after_prefix-trim_end [] s h = refl
after_prefix-trim_end (k ∷ key) [] h = refl
after_prefix-trim_end (k ∷ key) (c ∷ s) h = elim (Bool-cases (nat_eq k c)) [
  | inl e ↦
      let p : is_space_code c ≡ false = sym (ap is_space_code (eq_of_nat_eq k c e)) ∙ h.0.0 in
      rw (p, e) (after_prefix-trim_end key s h.1)
  | inr e ↦ ground (arith, e)
]

is_equals-trim_end : (s : List ℕ) → is_equals (trim_end s) ≡ is_equals s
is_equals-trim_end [] = refl
is_equals-trim_end (c ∷ s) = ground (arith, equals_not_space c)

opens_value-map : (o : Option (List ℕ)) → opens_value (Option.map trim_end o) ≡ opens_value o
opens_value-map none = refl
opens_value-map (some s) = rw (skip-trim_end s) (is_equals-trim_end (skip_spaces s))

assigns-trim_end :
    (regex : List ℕ → List ℕ → Bool) (key line : List ℕ)
    → IsPlain key
    → assigns regex key (trim_end line) ≡ assigns regex key line
assigns-trim_end regex key line h =
    rw (assigns_lem regex key (trim_end line) h, assigns_lem regex key line h)
      (rw (skip-trim_end line, after_prefix-trim_end key (skip_spaces line) h)
        (opens_value-map (after_prefix key (skip_spaces line))))

after_equals-trim_end : (s : List ℕ) → after_equals (trim_end s) ≡ trim_end (after_equals s)
after_equals-trim_end [] = refl
after_equals-trim_end (c ∷ s) =
    ground (arith, equals_not_space c, after_equals-trim_end s, empty_lem (trim_end s))

value_of-trim_end : (line : List ℕ) → value_of (trim_end line) ≡ value_of line
unfolding value_of
value_of-trim_end line =
    rw
      (
        after_equals-trim_end line,
        skip-trim_end (after_equals line),
        trim_end_idem (skip_spaces (after_equals line)),
      )
      refl

-- Two lines that differ in the blanks at their end are read alike.
pub read-trim_end :
    (regex : List ℕ → List ℕ → Bool) (key p q : List ℕ) (ls : List (List ℕ))
    → IsPlain key
    → trim_end p ≡ trim_end q
    → read_lines regex key (p ∷ ls) ≡ read_lines regex key (q ∷ ls)
read-trim_end regex key p q ls h e =
    let a : assigns regex key p ≡ assigns regex key q =
      sym (assigns-trim_end regex key p h)
      ∙ ap (assigns regex key) e
      ∙ assigns-trim_end regex key q h in
    let v : value_of p ≡ value_of q =
      sym (value_of-trim_end p) ∙ ap value_of e ∙ value_of-trim_end q in
    elim (Bool-cases (assigns regex key q)) [ inl t ↦ rw (a, t, v) refl | inr t ↦ rw (a, t) refl ]
