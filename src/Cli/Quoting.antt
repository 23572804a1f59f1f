-- ===== src/Cli/Quoting.antt =====
-- setupPostgres.ts: what `quoteLiteral` and `quoteIdent` quote, read as PostgreSQL reads it.
use queueway.Base.{
  ◌∙◌, ap, inr, inl, Bool-cases, ◌++◌, arith, false, true, Bool, ◌≡◌, refl, nat_eq, if◌then◌else◌,
  Option, none, some, [], ◌∷◌, List, ℕ,
}
use queueway.Cli.SetupPostgres.{quote_literal, doubled}
use mathlib.Core.List.{append_assoc}

abbrev onto : ℕ → Option (List ℕ × List ℕ) → Option (List ℕ × List ℕ)
onto c none = none
onto c (some (v, rest)) = some (c ∷ v, rest)

-- Up to the first quote that is not doubled, and what stands behind it. The flag: a quote was just read.
abbrev pub read_quoted : ℕ → Bool → List ℕ → Option (List ℕ × List ℕ)
read_quoted q false [] = none
read_quoted q true [] = some ([], [])
read_quoted q false (c ∷ s) =
    let inner = read_quoted q false s in
    let closing = read_quoted q true s in if nat_eq c q then closing else onto c inner
read_quoted q true (c ∷ s) =
    let inner = read_quoted q false s in if nat_eq c q then onto c inner else some ([], c ∷ s)

abbrev pub starts_with : ℕ → List ℕ → Bool
starts_with q [] = false
starts_with q (c ∷ s) = nat_eq c q

read-closing :
    (q : ℕ) (rest : List ℕ) → starts_with q rest ≡ false → read_quoted q true rest ≡ some ([], rest)
read-closing q [] h = refl
read-closing q (c ∷ s) h = rw h refl

eq_self : (q : ℕ) → nat_eq q q ≡ true
eq_self q = ground arith

read-doubled :
    (q : ℕ) (s rest : List ℕ)
    → starts_with q rest ≡ false
    → read_quoted q false (doubled q s ++ q ∷ rest) ≡ some (s, rest)
read-doubled q [] rest h = rw (eq_self q) (read-closing q rest h)
read-doubled q (c ∷ s) rest h = elim (Bool-cases (nat_eq c q)) [
  | inl e ↦ rw e (rw (e, read-doubled q s rest h) refl)
  | inr e ↦ rw e (rw (e, read-doubled q s rest h) refl)
]

abbrev pub read_literal : ℕ → List ℕ → Option (List ℕ × List ℕ)
read_literal q [] = none
read_literal q (c ∷ s) = if nat_eq c q then read_quoted q false s else none

-- A password that is quoted for PostgreSQL, with anything behind it but a quote, reads back as
-- itself up to its closing quote, so no part of it is read as SQL.
pub read-quote_literal :
    (value rest : List ℕ)
    → starts_with 39 rest ≡ false
    → read_literal 39 (quote_literal value ++ rest) ≡ some (value, rest)
read-quote_literal value rest h =
    ap (read_quoted 39 false) (append_assoc (doubled 39 value) (39 ∷ []) rest)
    ∙ read-doubled 39 value rest h
