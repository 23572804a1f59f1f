-- ===== src/Cli/Compose/Keeping.antt =====
-- dockerServices.ts: the other services of a compose file, when some are set up.
use queueway.Base.{
  sym, ◌∙◌, ap, inr, inl, true, false, Bool-cases, ◌≡◌, refl, text_eq, if◌then◌else◌, Option, none,
  some, [], ◌∷◌, List, ℕ,
}
use queueway.Cli.Machine.{ServiceSpec}
use queueway.Cli.Compose.{service_block, existing_blocks, with_specs, set_block}
use queueway.Cli.Docker.{service_text}
use queueway.Cli.EnvFile.Keys.{text_eq_iff}

abbrev pub find_block : List ℕ → List (List ℕ × List ℕ) → Option (List ℕ)
find_block name [] = none
find_block name ((n, b) ∷ blocks) = if text_eq n name then some b else find_block name blocks

set_block-other :
    (name block other : List ℕ) (blocks : List (List ℕ × List ℕ))
    → text_eq name other ≡ false
    → find_block other (set_block name block blocks) ≡ find_block other blocks
set_block-other name block other [] h = rw h refl
set_block-other name block other ((n, b) ∷ blocks) h = elim (Bool-cases (text_eq n name)) [
  | inl same ↦
      let differs : text_eq n other ≡ false =
        ap (λ x. text_eq x other) ((text_eq_iff n name).0 same) ∙ h in
      rw (same, differs) refl
  | inr apart ↦ elim (Bool-cases (text_eq n other)) [
    | inl found ↦ rw (apart, found) refl
    | inr lost ↦ rw (apart, lost) (set_block-other name block other blocks h)
  ]
]

text_eq_self : (s : List ℕ) → text_eq s s ≡ true
text_eq_self s = (text_eq_iff s s).1 refl

set_block-own :
    (name block : List ℕ) (blocks : List (List ℕ × List ℕ))
    → find_block name (set_block name block blocks) ≡ some block
set_block-own name block [] = rw (text_eq_self name) refl
set_block-own name block ((n, b) ∷ blocks) = elim (Bool-cases (text_eq n name)) [
  | inl same ↦ rw same (rw same refl)
  | inr apart ↦ rw apart (rw apart (set_block-own name block blocks))
]

-- What a service's block becomes, when these are set up in this order.
abbrev pub block_after : List ℕ → List ServiceSpec → List ℕ → Option (List ℕ) → Option (List ℕ)
block_after slug [] name old = old
block_after slug (spec ∷ specs) name old =
    block_after slug specs name
      (if text_eq (service_text spec.name) name then some (service_block spec slug) else old)

-- Whatever the compose file holds, after services are set up each of them has its new block, and
-- every other service of the file has the block that it had.
pub with_specs_keeps :
    (slug : List ℕ) (specs : List ServiceSpec) (file : Option (List ℕ)) (name : List ℕ)
    → find_block name (with_specs slug specs (existing_blocks file))
      ≡ block_after slug specs name (find_block name (existing_blocks file))
unfolding with_specs
with_specs_keeps slug specs file name = go slug specs name (existing_blocks file)
  where
    one :
        (service block name : List ℕ) (blocks : List (List ℕ × List ℕ))
        → find_block name (set_block service block blocks)
          ≡ (if text_eq service name then some block else find_block name blocks)
    one service block name blocks = elim (Bool-cases (text_eq service name)) [
      | inl same ↦ rw same (
          ap (λ x. find_block x (set_block service block blocks))
            (sym ((text_eq_iff service name).0 same))
          ∙ set_block-own service block blocks)
      | inr apart ↦ rw apart (set_block-other service block name blocks apart)
    ]

    go :
        (slug : List ℕ) (specs : List ServiceSpec) (name : List ℕ) (blocks : List (List ℕ × List ℕ))
        → find_block name (with_specs slug specs blocks)
          ≡ block_after slug specs name (find_block name blocks)
    go slug [] name blocks = refl
    go slug (spec ∷ specs) name blocks =
        go slug specs name (set_block (service_text spec.name) (service_block spec slug) blocks)
        ∙ ap (block_after slug specs name)
            (one (service_text spec.name) (service_block spec slug) name blocks)
