-- ===== src/Cli/EnvFile/Keys.antt =====
-- envFile.ts: which line of `.env` assigns a key.
use queueway.Base.{
  nat_eq, some, is_space_code, inr, ◌∙◌, sym, ap, arith, [], inl, after_prefix, trim, Bool-cases,
  ◌++◌, ◌∷◌, ◌↔◌, false, skip_spaces, is_empty, true, ◌≡◌, ℕ, Bool, text_eq, List, refl,
}
use queueway.Cli.EnvFile.{after_equals, value_of, opens_value, unquote, assignment, assigns}
use queueway.Cli.EnvFile.Reading.{assigns_lem, eq_of_nat_eq, equals_not_space, IsPlain}
use queueway.Cli.EnvFile.Trimming.{IsLine}

pub text_eq_iff : (a b : List ℕ) → (text_eq a b ≡ true) ↔ (a ≡ b)
unfolding text_eq
text_eq_iff (x ∷ a) (y ∷ b) = ground (arith, text_eq_iff a b)
text_eq_iff _ _ = ground arith

abbrev pub IsKey : List ℕ → Type 0
IsKey key = (is_empty key ≡ false) × IsPlain key

-- A value that the reader gives back as it is: on one line, with no blanks or quotes around it.
abbrev pub IsValue : List ℕ → Type 0
IsValue value = (unquote (trim value) ≡ value) × IsLine value

no_lead :
    (d e : ℕ) (j s : List ℕ)
    → IsPlain (d ∷ j)
    → opens_value (after_prefix (d ∷ j) (e ∷ s)) ≡ true
    → opens_value (some (e ∷ s)) ≡ true
    → ⊥
no_lead d e j s h a b = elim (Bool-cases (nat_eq d e)) [
  | inr n ↦ ground (arith, a, n)
  | inl q ↦
      let p = eq_of_nat_eq d e q in
      let blank : is_space_code e ≡ false = sym (ap is_space_code p) ∙ h.0.0 in
      ground (arith, b, blank, h.0.1, p)
]

leads_unique :
    (k j s : List ℕ)
    → IsPlain k
    → IsPlain j
    → opens_value (after_prefix k s) ≡ true
    → opens_value (after_prefix j s) ≡ true
    → k ≡ j
leads_unique [] [] s hk hj a b = refl
leads_unique (c ∷ k) (d ∷ j) (e ∷ s) hk hj a b = ground (arith, a, b, leads_unique k j s hk.1 hj.1)
leads_unique (c ∷ k) j [] hk hj a b = cc
leads_unique k (d ∷ j) [] hk hj a b = cc
leads_unique [] (d ∷ j) (e ∷ s) hk hj a b = absurd (no_lead d e j s hj b a)
leads_unique (c ∷ k) [] (e ∷ s) hk hj a b = absurd (no_lead c e k s hk a b)

leads_self : (k v : List ℕ) → IsPlain k → opens_value (after_prefix k (assignment k v)) ≡ true
leads_self [] v h = rw (equals_not_space 61 refl) refl
leads_self (c ∷ k) v h = ground (arith, leads_self k v h.1)

skip-key : (k x : List ℕ) → IsKey k → skip_spaces (k ++ x) ≡ k ++ x
skip-key [] x h = cc
skip-key (c ∷ k) x h = rw (h.1.0.0) refl

pub assigns_unique :
    (regex : List ℕ → List ℕ → Bool) (k j line : List ℕ)
    → IsKey k
    → IsKey j
    → assigns regex k line ≡ true
    → assigns regex j line ≡ true
    → k ≡ j
assigns_unique regex k j line hk hj a b =
    leads_unique k j (skip_spaces line) hk.1 hj.1 (sym (assigns_lem regex k line hk.1) ∙ a)
      (sym (assigns_lem regex j line hj.1) ∙ b)

assigns_self :
    (regex : List ℕ → List ℕ → Bool) (k v : List ℕ)
    → IsKey k
    → assigns regex k (assignment k v) ≡ true
assigns_self regex k v h =
    assigns_lem regex k (assignment k v) h.1 ∙ rw (skip-key k (61 ∷ v) h) (leads_self k v h.1)

pub differ : {b : Bool} → b ≡ false → b ≡ true → ⊥
differ e f = cc

pub assigns-assignment :
    (regex : List ℕ → List ℕ → Bool) (k j v : List ℕ)
    → IsKey k
    → IsKey j
    → assigns regex j (assignment k v) ≡ text_eq k j
assigns-assignment regex k j v hk hj =
    let own = assigns_self regex k v hk in
    elim (Bool-cases (text_eq k j)) [
      | inl e ↦
          rw e (ap (λ x. assigns regex x (assignment k v)) (sym ((text_eq_iff k j).0 e)) ∙ own)
      | inr e ↦ elim (Bool-cases (assigns regex j (assignment k v))) [
        | inl a ↦
            absurd (
              differ e
                ((text_eq_iff k j).1 (assigns_unique regex k j (assignment k v) hk hj own a)))
        | inr a ↦ rw (a, e) refl
      ]
    ]

pub value_of-assignment : (k v : List ℕ) → IsPlain k → value_of (assignment k v) ≡ unquote (trim v)
unfolding value_of
value_of-assignment k v h = ap (λ x. unquote (trim x)) (after k v h)
  where
    after : (k v : List ℕ) → IsPlain k → after_equals (assignment k v) ≡ v
    after [] v h = refl
    after (c ∷ k) v h = rw (h.0.1) (after k v h.1)
