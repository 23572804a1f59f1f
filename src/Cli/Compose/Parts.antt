-- ===== src/Cli/Compose/Parts.antt =====
-- dockerServices.ts: how the services of a file that `writeComposeFile` made are split again.
use queueway.Base.{
  sym, map, join_lines, All, ap, ◌∙◌, if◌then◌else◌, arith, false, ◌≡◌, refl, ℕ, Bool, true, not,
  ◌&&◌, List, [], ◌∷◌, ◌++◌, nat_eq, after_prefix, codes, onto_first,
}
use queueway.Cli.Compose.{new_part, is_small, split_parts, opens_service}
use queueway.Cli.Compose.Searching.{and_both}
use queueway.Cli.ServiceBlock.{line_of}
use mathlib.Core.List.{append-nil, append_assoc}

-- No service begins in the text, whose first character stands at the beginning of a line or not.
abbrev pub unsplit : Bool → List ℕ → Bool
unsplit first [] = true
unsplit first (c ∷ s) =
    not (first && opens_service (after_prefix (codes "  ") (c ∷ s))) && unsplit (nat_eq c 10) s

abbrev pub prepend : List ℕ → List (List ℕ) → List (List ℕ)
prepend [] parts = parts
prepend (c ∷ s) parts = onto_first c (prepend s parts)

-- A text that ends with a line feed does not open a service with the help of what follows.
opens_alone :
    (s rest : List ℕ)
    → opens_service (after_prefix (codes "  ") (s ++ 10 ∷ rest))
      ≡ opens_service (after_prefix (codes "  ") (s ++ 10 ∷ []))
opens_alone [] rest = refl
opens_alone (a ∷ []) rest = refl
opens_alone (a ∷ b ∷ []) rest = ground arith
opens_alone (a ∷ b ∷ c ∷ s) rest = ground arith

unless {ℓ} : {A : Type ℓ} (b : Bool) (x y : A) → not b ≡ true → (if b then x else y) ≡ y
unless true x y h = ground (arith, h)
unless false x y h = refl

split-unsplit :
    (first : Bool) (s rest : List ℕ)
    → unsplit first (s ++ 10 ∷ []) ≡ true
    → split_parts first (s ++ 10 ∷ rest) ≡ prepend (s ++ 10 ∷ []) (split_parts true rest)
split-unsplit true [] rest h = refl
split-unsplit false [] rest h = refl
split-unsplit first (c ∷ s) rest h =
    let opens = opens_service (after_prefix (codes "  ") (c ∷ s ++ 10 ∷ rest)) in
    let (miss, more) =
      and_both (not (first && opens_service (after_prefix (codes "  ") (c ∷ s ++ 10 ∷ []))))
        (unsplit (nat_eq c 10) (s ++ 10 ∷ [])) h in
    unless (first && opens) _ _ (rw (opens_alone (c ∷ s) rest) miss)
    ∙ ap (onto_first c) (split-unsplit (nat_eq c 10) s rest more)

-- A service under its name, as it is kept: two spaces, its text, and a line feed.
abbrev pub block_text : List ℕ → List ℕ
block_text p = codes "  " ++ line_of p

abbrev pub starts_small : List ℕ → Bool
starts_small p = is_small p

new_part-onto_first :
    (c : ℕ) (parts : List (List ℕ))
    → new_part (onto_first 32 (onto_first c parts)) ≡ [] ∷ onto_first c parts
new_part-onto_first c [] = refl
new_part-onto_first c (l ∷ ls) = refl

-- Its text begins with a small letter and has no other service in it.
split-block :
    (p rest : List ℕ)
    → starts_small p ≡ true
    → unsplit false (p ++ 10 ∷ []) ≡ true
    → split_parts true (block_text p ++ rest) ≡ [] ∷ prepend (p ++ 10 ∷ []) (split_parts true rest)
split-block (c ∷ p) rest h u =
    rw h (new_part-onto_first c _)
    ∙ ap (◌∷◌ []) (
        ap (split_parts false) (append_assoc (c ∷ p) (10 ∷ []) rest)
        ∙ split-unsplit false (c ∷ p) rest u)
split-block [] rest h u = ground (arith, h)

-- The parts of a body, behind the empty one at its beginning.
abbrev pub parts_of : List (List ℕ) → List (List ℕ)
parts_of [] = []
parts_of (p ∷ []) = (p ++ 10 ∷ []) ∷ []
parts_of (p ∷ q ∷ ps) = (p ++ 10 ∷ 10 ∷ []) ∷ parts_of (q ∷ ps)

abbrev pub IsWhole : List ℕ → Type 0
IsWhole p = (starts_small p ≡ true) × (unsplit false (p ++ 10 ∷ []) ≡ true)

prepend-one : (s l : List ℕ) (ls : List (List ℕ)) → prepend s (l ∷ ls) ≡ (s ++ l) ∷ ls
prepend-one [] l ls = refl
prepend-one (c ∷ s) l ls = ap (onto_first c) (prepend-one s l ls)

pub split-body :
    (ps : List (List ℕ))
    → All IsWhole ps
    → split_parts true (join_lines (map block_text ps)) ≡ [] ∷ parts_of ps
split-body [] h = refl
split-body (p ∷ []) ((a, u), h) =
    ap (split_parts true) (sym (append-nil (block_text p)))
    ∙ split-block p [] a u
    ∙ ap (◌∷◌ []) (prepend-one (p ++ 10 ∷ []) [] [] ∙ ap (λ s. s ∷ []) (append-nil (p ++ 10 ∷ [])))
split-body (p ∷ q ∷ ps) ((a, u), h) =
    split-block p (10 ∷ join_lines (map block_text (q ∷ ps))) a u
    ∙ ap (λ r. [] ∷ prepend (p ++ 10 ∷ []) (onto_first 10 r)) (split-body (q ∷ ps) h)
    ∙ ap (◌∷◌ []) (
        prepend-one (p ++ 10 ∷ []) (10 ∷ []) (parts_of (q ∷ ps))
        ∙ ap (λ s. s ∷ parts_of (q ∷ ps)) (append_assoc p (10 ∷ []) (10 ∷ [])))
