-- ===== src/Cli/Compose/Collecting.antt =====
-- dockerServices.ts: the blocks that `existingBlocks` makes of the parts of a body.
use mathlib.Core.List.{append-nil, append_assoc}
use queueway.Base.{
  inr, inl, nat_eq, Bool-cases, ◌≡◌, ◌∙◌, refl, sym, ap, arith, ℕ, Bool, true, false, List, [], ◌∷◌,
  ◌++◌, All, is_empty, trim_end, trim, text_eq, skip_spaces, is_space_code,
}
use queueway.Cli.Compose.{collect, part_name, set_block, before_colon, has_colon}
use queueway.Cli.Compose.Parts.{parts_of, block_text}

abbrev pub starts_space : List ℕ → Bool
starts_space [] = true
starts_space (c ∷ s) = is_space_code c

-- The text of a service reads back under its name: it begins with no white space, ends with none, and
-- what stands before its first colon is the name.
pub record IsNamed (name text : List ℕ) : Type 0 where
  pub named : is_empty name ≡ false
  pub starts : starts_space text ≡ false
  pub ends : trim_end text ≡ text
  pub colon : has_colon text ≡ true
  pub names : part_name text ≡ name

trim_end-line : (s : List ℕ) → trim_end (s ++ 10 ∷ []) ≡ trim_end s
unfolding is_space_code
trim_end-line [] = refl
trim_end-line (c ∷ s) = rw (trim_end-line s) refl

trim_end-lines : (s : List ℕ) → trim_end (s ++ 10 ∷ 10 ∷ []) ≡ trim_end s
trim_end-lines s =
    ap trim_end (sym (append_assoc s (10 ∷ []) (10 ∷ [])))
    ∙ trim_end-line (s ++ 10 ∷ [])
    ∙ trim_end-line s

before_colon-append :
    (s t : List ℕ)
    → has_colon s ≡ true
    → (before_colon (s ++ t) ≡ before_colon s) × (has_colon (s ++ t) ≡ true)
before_colon-append [] t h = ground (arith, h)
before_colon-append (c ∷ s) t h = elim (Bool-cases (nat_eq c 58)) [
  | inl e ↦ rw e (refl, refl)
  | inr e ↦ let (b, k) = before_colon-append s t (ground (arith, h, e)) in rw e (ap (◌∷◌ c) b, k)
]

part_name-append : (s t : List ℕ) → has_colon s ≡ true → part_name (s ++ t) ≡ part_name s
part_name-append s t h = let (b, k) = before_colon-append s t h in rw (k, h, b) refl

skip_starts : (s t : List ℕ) → starts_space s ≡ false → skip_spaces (s ++ t) ≡ s ++ t
skip_starts [] t h = ground (arith, h)
skip_starts (c ∷ s) t h = rw h refl

trimmed :
    (text t : List ℕ)
    → starts_space text ≡ false
    → trim_end (text ++ t) ≡ text
    → is_empty (trim (text ++ t)) ≡ false
trimmed [] t h e = ground (arith, h)
trimmed (c ∷ s) t h e = rw (skip_starts (c ∷ s) t h) (ap is_empty e)

-- One part, with the line feeds behind it.
collect_one :
    (name text t : List ℕ) (parts : List (List ℕ)) (blocks : List (List ℕ × List ℕ))
    → IsNamed name text
    → trim_end (text ++ t) ≡ trim_end text
    → collect ((text ++ t) ∷ parts) blocks ≡ collect parts (set_block name (block_text text) blocks)
collect_one name text t parts blocks n e =
    rw
      (
        trimmed text t n.starts (e ∙ n.ends),
        part_name-append text t n.colon ∙ n.names,
        n.named,
        e ∙ n.ends,
      )
      refl

set_block-new :
    (name block : List ℕ) (blocks : List (List ℕ × List ℕ))
    → All (λ b. text_eq b.0 name ≡ false) blocks
    → set_block name block blocks ≡ blocks ++ (name, block) ∷ []
set_block-new name block [] h = refl
set_block-new name block ((n, b) ∷ blocks) (h, k) =
    rw h (ap (◌∷◌ (n, b)) (set_block-new name block blocks k))

abbrev pub Service : Type 0
Service = List ℕ × List ℕ

-- The services in the file: each reads back under its name, and no two have the same.
abbrev pub AreServices : List (List ℕ × List ℕ) → List Service → Type 0
AreServices earlier [] = Unit
AreServices earlier ((name, text) ∷ rest) =
    IsNamed name text
    × All (λ b. text_eq b.0 name ≡ false) earlier
    × AreServices (earlier ++ (name, block_text text) ∷ []) rest

abbrev pub texts : List Service → List (List ℕ)
texts [] = []
texts ((name, text) ∷ rest) = text ∷ texts rest

abbrev pub blocks_of : List Service → List (List ℕ × List ℕ)
blocks_of [] = []
blocks_of ((name, text) ∷ rest) = (name, block_text text) ∷ blocks_of rest

pub collect-parts_of :
    (services : List Service) (blocks : List (List ℕ × List ℕ))
    → AreServices blocks services
    → collect (parts_of (texts services)) blocks ≡ blocks ++ blocks_of services
collect-parts_of [] blocks h = sym (append-nil blocks)
collect-parts_of ((name, text) ∷ []) blocks (n, new, h) =
    collect_one name text (10 ∷ []) [] blocks n (trim_end-line text)
    ∙ set_block-new name (block_text text) blocks new
collect-parts_of ((name, text) ∷ (m, q) ∷ rest) blocks (n, new, h) =
    collect_one name text (10 ∷ 10 ∷ []) (parts_of (texts ((m, q) ∷ rest))) blocks n
      (trim_end-lines text)
    ∙ ap (collect (parts_of (texts ((m, q) ∷ rest))))
        (set_block-new name (block_text text) blocks new)
    ∙ collect-parts_of ((m, q) ∷ rest) (blocks ++ (name, block_text text) ∷ []) h
    ∙ append_assoc blocks ((name, block_text text) ∷ []) (blocks_of ((m, q) ∷ rest))
