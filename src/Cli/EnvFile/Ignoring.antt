-- ===== src/Cli/EnvFile/Ignoring.antt =====
-- envFile.ts: `ensureEnvIgnored` on a `.gitignore` that was written before.
use queueway.Base.{
  ◌∙◌, starts_line, ◌&&◌, inr, inl, is_empty, nat_eq, not, Bool-cases, [], text_eq, ◌∷◌, true,
  is_some, ◌≡◌, ◌++◌, codes, ◌||◌, false, is_space_code, onto_first, ℕ, split_lines, List, refl,
  Bool,
}
use queueway.Cli.EnvFile.Trimming.{and_false}
use queueway.Cli.EnvFile.{
  ends_line, text_of, is_env_line, already, Project, is_ignored, addition, ensure_env_ignored,
  some_line,
}

abbrev later_line : (List ℕ → Bool) → List (List ℕ) → Bool
later_line p [] = false
later_line p (l ∷ ls) = some_line p ls

module _ (p : List ℕ → Bool) where
  some-later : (ls : List (List ℕ)) → later_line p ls ≡ true → some_line p ls ≡ true
  some-later [] h = h
  some-later (l ∷ ls) h = rw h (or_true (p l))
    where
      or_true : (b : Bool) → (b || true) ≡ true
      or_true true = refl
      or_true false = refl

  later-onto_first : (c : ℕ) (ls : List (List ℕ)) → later_line p (onto_first c ls) ≡ later_line p ls
  later-onto_first c [] = refl
  later-onto_first c (l ∷ ls) = refl

  later-split :
      (a b : List ℕ)
      → some_line p (split_lines b) ≡ true
      → later_line p (split_lines (a ++ 10 ∷ b)) ≡ true
  unfolding split_lines
  later-split [] b h = h
  later-split (c ∷ a) b h =
      let rest = split_lines (a ++ 10 ∷ b) in
      let below = later-split a b h in
      elim (Bool-cases (nat_eq c 10)) [
        | inl e ↦ rw e (some-later rest below)
        | inr e ↦ elim (Bool-cases (nat_eq c 13 && starts_line (a ++ 10 ∷ b))) [
          | inl f ↦ rw (e, f) below
          | inr f ↦ rw (e, f) (later-onto_first c rest ∙ below)
        ]
      ]

abbrev entry_text : List ℕ
entry_text = codes "# Queueway writes database credentials here" ++ 10 ∷ codes ".env" ++ 10 ∷ []

names_env : (is_ignored entry_text ≡ true) × (is_ignored (10 ∷ entry_text) ≡ true)
unfolding is_ignored split_lines is_space_code text_eq
names_env = (refl, refl)

is_ignored-append : (a b : List ℕ) → is_ignored b ≡ true → is_ignored (a ++ 10 ∷ b) ≡ true
unfolding is_ignored
is_ignored-append a b h =
    some-later is_env_line (split_lines (a ++ 10 ∷ b)) (later-split is_env_line a b h)

is_ignored-addition : (content : List ℕ) → is_ignored (content ++ addition content) ≡ true
unfolding addition
is_ignored-addition content =
    elim (Bool-cases (not (is_empty content) && not (ends_line content))) [
      | inl e ↦ rw e (is_ignored-append content (10 ∷ entry_text) names_env.1)
      | inr e ↦ rw e (is_ignored-append content entry_text names_env.0)
    ]

-- In a project with Git or a .gitignore, once `ensureEnvIgnored` has run a second run finds .env
-- ignored and changes nothing.
pub ensure_env_ignored_again :
    (p : Project)
    → (p.has_git || is_some p.gitignore) ≡ true
    → ensure_env_ignored (ensure_env_ignored p).1 ≡ (already, (ensure_env_ignored p).1)
unfolding ensure_env_ignored
ensure_env_ignored_again p h =
    let content = text_of p.gitignore in
    elim (Bool-cases (is_ignored content)) [
      | inl e ↦
          rw (neither p.has_git (is_some p.gitignore) h, e)
            (rw (neither p.has_git (is_some p.gitignore) h, e) refl)
      | inr e ↦
          rw (neither p.has_git (is_some p.gitignore) h, e)
            (rw (and_false (not p.has_git), is_ignored-addition content) refl)
    ]
  where
    neither : (a b : Bool) → (a || b) ≡ true → (not a && not b) ≡ false
    neither true b h = refl
    neither false true h = refl
    neither false false h = cc
