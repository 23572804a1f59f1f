-- ===== src/Cli/EnvFile/RoundTrip.antt =====
-- envFile.ts: `readEnvValue` on a text that `upsertEnv` wrote.
use queueway.Cli.EnvFile.Keys.{
  text_eq_iff, IsKey, IsValue, assigns_unique, differ, assigns-assignment, value_of-assignment,
}
use queueway.Base.{
  none, starts_line, join_lines, ◌&&◌, onto_first, if◌then◌else◌, All-append, split_lines, nat_eq,
  All, some, is_space_code, Option, inr, ◌∙◌, ap, arith, [], inl, Bool-cases, ◌++◌, ◌∷◌, false,
  true, ◌≡◌, ℕ, text_eq, List, Bool, refl,
}
use queueway.Cli.EnvFile.{
  upserted, all_owned, Project, Upserted, read_text, upsert_one, read_env_value, set_line, lines_of,
  upsert_env, read_lines, upsert_all, assignment, assigns,
}
use queueway.Cli.EnvFile.Reading.{IsPlain}
use queueway.Cli.EnvFile.Trimming.{split-nil, IsLine}
use queueway.Cli.EnvFile.Splitting.{read-end-squash, read-rejoin, assigns_nil}

read-set_line :
    (regex : List ℕ → List ℕ → Bool) (k j v : List ℕ) (ls : List (List ℕ))
    → IsKey k
    → IsKey j
    → IsValue v
    → read_lines regex j (set_line (assigns regex k) (assignment k v) ls)
      ≡ (if text_eq k j then some v else read_lines regex j ls)
read-set_line regex k j v [] hk hj hv = elim (Bool-cases (text_eq k j)) [
  | inl e ↦ rw (assigns-assignment regex k j v hk hj, e, value_of-assignment k v hk.1, hv.0) refl
  | inr e ↦ rw (assigns-assignment regex k j v hk hj, e) refl
]
read-set_line regex k j v (l ∷ ls) hk hj hv = elim (Bool-cases (assigns regex k l)) [
  | inl a ↦ elim (Bool-cases (text_eq k j)) [
    | inl e ↦
        rw (a, assigns-assignment regex k j v hk hj, e, value_of-assignment k v hk.1, hv.0) refl
    | inr e ↦ elim (Bool-cases (assigns regex j l)) [
      | inl b ↦ absurd (differ e ((text_eq_iff k j).1 (assigns_unique regex k j l hk hj a b)))
      | inr b ↦ rw (a, assigns-assignment regex k j v hk hj, e, b) refl
    ]
  ]
  | inr a ↦ elim (Bool-cases (assigns regex j l)) [
    | inl b ↦ elim (Bool-cases (text_eq k j)) [
      | inl e ↦ absurd (differ a (ap (λ x. assigns regex x l) ((text_eq_iff k j).0 e) ∙ b))
      | inr e ↦ rw (a, b, e) refl
    ]
    | inr b ↦ rw (a, b) (read-set_line regex k j v ls hk hj hv)
  ]
]

-- What a key reads after these assignments, which are made in their order.
abbrev pub assigned : List ℕ → List (List ℕ × List ℕ) → Option (List ℕ) → Option (List ℕ)
assigned j [] d = d
assigned j ((k, v) ∷ vars) d = assigned j vars (if text_eq k j then some v else d)

abbrev pub AreVariables : List (List ℕ × List ℕ) → Type 0
AreVariables vars = All (λ b. IsKey b.0 × IsValue b.1) vars

read-upsert_all :
    (regex : List ℕ → List ℕ → Bool) (j : List ℕ) (vars : List (List ℕ × List ℕ)) (u : Upserted)
    → IsKey j
    → AreVariables vars
    → read_lines regex j (upsert_all regex vars u).lines
      ≡ assigned j vars (read_lines regex j u.lines)
unfolding upsert_all upsert_one
read-upsert_all regex j [] u hj h = refl
read-upsert_all regex j ((k, v) ∷ vars) u hj ((hk, hv), h) =
    read-upsert_all regex j vars (upsert_one regex k v u) hj h
    ∙ ap (assigned j vars) (read-set_line regex k j v u.lines hk hj hv)

IsLine-append : (a b : List ℕ) → IsLine a → IsLine b → IsLine (a ++ b)
IsLine-append a b = All-append (λ c. nat_eq c 10 ≡ false) a b

no_break : (c : ℕ) → is_space_code c ≡ false → nat_eq c 10 ≡ false
unfolding is_space_code
no_break c h = ground (arith, h)

IsLine-key : (k : List ℕ) → IsPlain k → IsLine k
IsLine-key [] h = tt
IsLine-key (c ∷ k) h = (no_break c h.0.0, IsLine-key k h.1)

IsLine-set_line :
    (regex : List ℕ → List ℕ → Bool) (k v : List ℕ) (ls : List (List ℕ))
    → IsKey k
    → IsValue v
    → All IsLine ls
    → All IsLine (set_line (assigns regex k) (assignment k v) ls)
IsLine-set_line regex k v [] hk hv h =
    (IsLine-append k (61 ∷ v) (IsLine-key k hk.1) (refl, hv.1), tt)
IsLine-set_line regex k v (l ∷ ls) hk hv h = elim (Bool-cases (assigns regex k l)) [
  | inl a ↦ rw a (IsLine-append k (61 ∷ v) (IsLine-key k hk.1) (refl, hv.1), h.1)
  | inr a ↦ rw a (h.0, IsLine-set_line regex k v ls hk hv h.1)
]

IsLine-upsert_all :
    (regex : List ℕ → List ℕ → Bool) (vars : List (List ℕ × List ℕ)) (u : Upserted)
    → AreVariables vars
    → All IsLine u.lines
    → All IsLine (upsert_all regex vars u).lines
unfolding upsert_all upsert_one
IsLine-upsert_all regex [] u h k = k
IsLine-upsert_all regex ((k, v) ∷ vars) u ((hk, hv), h) ls =
    IsLine-upsert_all regex vars (upsert_one regex k v u) h
      (IsLine-set_line regex k v u.lines hk hv ls)

IsLine-onto_first :
    (c : ℕ) (ls : List (List ℕ))
    → nat_eq c 10 ≡ false
    → All IsLine ls
    → All IsLine (onto_first c ls)
IsLine-onto_first c [] h k = ((h, tt), tt)
IsLine-onto_first c (l ∷ ls) h k = ((h, k.0), k.1)

IsLine-split_lines : (s : List ℕ) → All IsLine (split_lines s)
unfolding split_lines
IsLine-split_lines [] = (tt, tt)
IsLine-split_lines (c ∷ s) = elim (Bool-cases (nat_eq c 10)) [
  | inl e ↦ rw e (tt, IsLine-split_lines s)
  | inr e ↦ elim (Bool-cases (nat_eq c 13 && starts_line s)) [
    | inl f ↦ rw (e, f) (IsLine-split_lines s)
    | inr f ↦ rw (e, f) (IsLine-onto_first c (split_lines s) e (IsLine-split_lines s))
  ]
]

IsLine-lines_of : (env : Option (List ℕ)) → All IsLine (lines_of env)
IsLine-lines_of none = tt
IsLine-lines_of (some []) = tt
IsLine-lines_of (some (c ∷ s)) = IsLine-split_lines (c ∷ s)

read-lines_of :
    (regex : List ℕ → List ℕ → Bool) (j : List ℕ) (env : Option (List ℕ))
    → IsKey j
    → read_lines regex j (lines_of env) ≡ read_text regex j env
read-lines_of regex j none h = refl
read-lines_of regex j (some []) h = rw (split-nil, assigns_nil regex j h.1) refl
read-lines_of regex j (some (c ∷ s)) h = refl

read-join_any :
    (regex : List ℕ → List ℕ → Bool) (j : List ℕ) (ls : List (List ℕ))
    → IsKey j
    → All IsLine ls
    → read_lines regex j (split_lines (join_lines ls)) ≡ read_lines regex j ls
read-join_any regex j [] h k = rw (split-nil, assigns_nil regex j h.1) refl
read-join_any regex j (l ∷ ls) h k = read-rejoin regex j h.1 l ls k.0 k.1

-- After variables with the prefix of Queueway were written to .env, each key reads as the last
-- value written for it, and a key that was not written reads as it did before. The keys, those
-- written and the one read, are not empty and have no blanks, no equals signs and no characters
-- with a meaning in a regular expression; the values are on one line with no blanks or quotes
-- around them.
pub read-upsert_env :
    (regex : List ℕ → List ℕ → Bool) (vars : List (List ℕ × List ℕ)) (p : Project) (key : List ℕ)
    → all_owned vars ≡ true
    → AreVariables vars
    → IsKey key
    → read_env_value regex key (upsert_env regex vars p).1
      ≡ assigned key vars (read_env_value regex key p)
unfolding upsert_env read_env_value
read-upsert_env regex vars p key o h k =
    let u = upserted regex p.env vars in
    rw o (
      read-end-squash regex key k.1 (join_lines u.lines)
      ∙ read-join_any regex key u.lines k (
          IsLine-upsert_all regex vars (record { lines = lines_of p.env; added = []; updated = [] })
            h (IsLine-lines_of p.env))
      ∙ read-upsert_all regex key vars (record { lines = lines_of p.env; added = []; updated = [] })
          k h
      ∙ ap (assigned key vars) (read-lines_of regex key p.env k))
