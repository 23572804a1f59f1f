-- ===== src/Cli/Compose/Searching.antt =====
-- dockerServices.ts: where `indexOf` and `slice` come to in a text that is put together.
use mathlib.Core.List.{append_assoc}
use queueway.Base.{
  All, ◌≡◌, ◌∙◌, refl, ap, arith, ℕ, ◌+◌, Bool, true, false, not, ◌&&◌, List, [], ◌∷◌, ◌++◌, length,
  take, nat_eq, is_some, after_prefix, some, if◌then◌else◌,
}
use queueway.Cli.Compose.{index_of, drop_chars}

-- The word does not begin in the text, whatever it reads of the rest.
abbrev pub skips : List ℕ → List ℕ → List ℕ → Bool
skips word [] rest = true
skips word (c ∷ s) rest = not (is_some (after_prefix word (c ∷ s ++ rest))) && skips word s rest

pub and_both : (a b : Bool) → (a && b) ≡ true → (a ≡ true) × (b ≡ true)
and_both true true h = (refl, refl)
and_both true false h = ground (arith, h)
and_both false b h = ground (arith, h)

pub index_of-skips :
    (word s rest : List ℕ) (at : ℕ)
    → skips word s rest ≡ true
    → index_of word at (s ++ rest) ≡ index_of word (at + length s) rest
index_of-skips word [] rest at h = ap (λ n. index_of word n rest) (omega arith)
index_of-skips word (c ∷ s) rest at h =
    let (miss, more) = and_both _ _ h in
    next (is_some (after_prefix word (c ∷ s ++ rest))) miss
    ∙ index_of-skips word s rest (at + 1) more
    ∙ ap (λ n. index_of word n rest) (omega arith)
  where
    next :
        (b : Bool)
        → not b ≡ true
        → (if b then some at else index_of word (at + 1) (s ++ rest))
          ≡ index_of word (at + 1) (s ++ rest)
    next true m = ground (arith, m)
    next false m = refl

pub skips-append :
    (word s t rest : List ℕ)
    → skips word s (t ++ rest) ≡ true
    → skips word t rest ≡ true
    → skips word (s ++ t) rest ≡ true
skips-append word [] t rest h k = k
skips-append word (c ∷ s) t rest h k =
    let (miss, more) =
      and_both (not (is_some (after_prefix word (c ∷ s ++ (t ++ rest))))) (skips word s (t ++ rest))
        h in
    rw (append_assoc s t rest, miss) (skips-append word s t rest more k)

-- A text without line feeds holds no word that begins with one.
pub skips_line :
    (word s rest : List ℕ) → All (λ c. nat_eq 10 c ≡ false) s → skips (10 ∷ word) s rest ≡ true
skips_line word [] rest h = refl
skips_line word (c ∷ s) rest (h, k) = rw h (skips_line word s rest k)

pub drop_chars-append : (s rest : List ℕ) → drop_chars (length s) (s ++ rest) ≡ rest
drop_chars-append [] rest = refl
drop_chars-append (c ∷ s) rest = drop_chars-append s rest

pub take-append : (s rest : List ℕ) → take (length s) (s ++ rest) ≡ s
take-append [] rest = refl
take-append (c ∷ s) rest = ap (◌∷◌ c) (take-append s rest)
