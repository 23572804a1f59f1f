-- ===== src/Cli/Compose/ReadBack.antt =====
-- dockerServices.ts: `existingBlocks` on a text that `writeComposeFile` wrote.
use queueway.Base.{
  take, ◌∙◌, sym, length-append, ◌-◌, arith, ap, length, some, ◌+◌, ◌≡◌, refl, ℕ, true, false, List,
  [], ◌∷◌, ◌++◌, All, map, nat_eq, codes, join_lines,
}
use queueway.Cli.ServiceBlock.{line_of}
use queueway.Cli.Compose.{
  compose_text, existing_blocks, texts_of, split_parts, collect, drop_chars, slice, index_of,
  blocks_from, remark, volume_lines,
}
use queueway.Cli.Compose.Searching.{
  drop_chars-append, take-append, index_of-skips, skips, skips-append, skips_line,
}
use queueway.Cli.Compose.Parts.{split-body, IsWhole, block_text}
use queueway.Cli.Compose.Collecting.{collect-parts_of, AreServices, Service, texts, blocks_of}
use mathlib.Core.List.{append_assoc}

abbrev services_mark : List ℕ
services_mark = codes "\nservices:\n"

abbrev pub volumes_mark : List ℕ
volumes_mark = codes "\nvolumes:\n"

abbrev head : List ℕ → List ℕ
head slug = remark ++ (codes "name: queueway-" ++ (slug ++ 10 ∷ []))

abbrev pub body_of : List Service → List ℕ
body_of services = join_lines (map block_text (texts services))

abbrev tail : List Service → List ℕ
tail services = line_of (join_lines (volume_lines (blocks_of services)))

-- A slug is one line.
abbrev pub IsLine : List ℕ → Type 0
IsLine slug = All (λ c. nat_eq 10 c ≡ false) slug

-- Where a mark is found behind a text in which it does not begin.
find_mark :
    (word h rest : List ℕ)
    → skips word h (word ++ rest) ≡ true
    → ((at : ℕ) → index_of word at (word ++ rest) ≡ some at)
    → index_of word 0 (h ++ (word ++ rest)) ≡ some (0 + length h)
find_mark word h rest k f = index_of-skips word h (word ++ rest) 0 k ∙ f (0 + length h)

module _ (h body rest : List ℕ)
    (no_services : skips services_mark h (services_mark ++ (body ++ (volumes_mark ++ rest))) ≡ true)
    (no_volumes : skips volumes_mark (h ++ (services_mark ++ body)) (volumes_mark ++ rest)
      ≡ true) where
  content : List ℕ
  content = h ++ (services_mark ++ (body ++ (volumes_mark ++ rest)))

  find_volumes : index_of volumes_mark 0 content ≡ some (0 + length (h ++ (services_mark ++ body)))
  unfolding content
  find_volumes =
      ap (index_of volumes_mark 0)
        (sym (append_assoc h (services_mark ++ body) (volumes_mark ++ rest)))
      ∙ find_mark volumes_mark (h ++ (services_mark ++ body)) rest no_volumes (λ at. refl)

  body_start : drop_chars (0 + length h + 11) content ≡ body ++ (volumes_mark ++ rest)
  unfolding content
  body_start =
      let n : 0 + length h + 11 ≡ length (h ++ services_mark) =
        omega (arith, length-append h services_mark) in
      ap (λ k. drop_chars k content) n
      ∙ ap (drop_chars (length (h ++ services_mark)))
          (sym (append_assoc h services_mark (body ++ (volumes_mark ++ rest))))
      ∙ drop_chars-append (h ++ services_mark) (body ++ (volumes_mark ++ rest))

  slice_body : slice (0 + length h + 11) (index_of volumes_mark 0 content) content ≡ body
  slice_body =
      let n : 0 + length (h ++ (services_mark ++ body)) - (0 + length h + 11) ≡ length body =
        omega (arith, length-append h (services_mark ++ body)) in
      ap (λ o. slice (0 + length h + 11) o content) find_volumes
      ∙ ap (take (0 + length (h ++ (services_mark ++ body)) - (0 + length h + 11))) body_start
      ∙ ap (λ k. take k (body ++ (volumes_mark ++ rest))) n
      ∙ take-append body (volumes_mark ++ rest)

  blocks_from_body :
      blocks_from content (index_of services_mark 0 content) ≡ collect (split_parts true body) []
  unfolding content
  blocks_from_body =
      ap (blocks_from content)
        (find_mark services_mark h (body ++ (volumes_mark ++ rest)) no_services (λ at. refl))
      ∙ ap (λ b. collect (split_parts true b) []) slice_body

-- A slug has neither mark in the lines before the services.
head_has_no_mark :
    (slug rest : List ℕ)
    → IsLine slug
    → (skips services_mark (head slug) (services_mark ++ rest) ≡ true)
      × (skips volumes_mark (head slug) (services_mark ++ rest) ≡ true)
head_has_no_mark slug rest h =
    (of_word (codes "services:\n") refl refl refl, of_word (codes "volumes:\n") refl refl refl)
  where
    of_word :
        (word : List ℕ)
        → skips
            (10 ∷ word)
            remark
            ((codes "name: queueway-" ++ (slug ++ 10 ∷ [])) ++ (services_mark ++ rest))
          ≡ true
        → skips (10 ∷ word) (codes "name: queueway-") ((slug ++ 10 ∷ []) ++ (services_mark ++ rest))
          ≡ true
        → skips (10 ∷ word) (10 ∷ []) (services_mark ++ rest) ≡ true
        → skips (10 ∷ word) (head slug) (services_mark ++ rest) ≡ true
    of_word word a b c =
        skips-append (10 ∷ word) remark (codes "name: queueway-" ++ (slug ++ 10 ∷ []))
          (services_mark ++ rest) a
          (skips-append (10 ∷ word) (codes "name: queueway-") (slug ++ 10 ∷ [])
            (services_mark ++ rest) b
            (skips-append (10 ∷ word) slug (10 ∷ []) (services_mark ++ rest)
              (skips_line word slug ((10 ∷ []) ++ (services_mark ++ rest)) h) c))

texts-blocks_of :
    (services : List Service) → texts_of (blocks_of services) ≡ map block_text (texts services)
texts-blocks_of [] = refl
texts-blocks_of ((name, text) ∷ rest) = ap (◌∷◌ (block_text text)) (texts-blocks_of rest)

nested : (a b c d e : List ℕ) → a ++ b ++ c ++ d ++ e ≡ a ++ (b ++ (c ++ (d ++ e)))
nested a b c d e =
    append_assoc (a ++ b ++ c) d e
    ∙ append_assoc (a ++ b) c (d ++ e)
    ∙ append_assoc a b (c ++ (d ++ e))

layout :
    (slug : List ℕ) (services : List Service)
    → compose_text slug (blocks_of services)
      ≡ head slug ++ (services_mark ++ (body_of services ++ (volumes_mark ++ tail services)))
unfolding compose_text
layout slug services =
    ap
      (λ ts.
        remark
        ++ line_of (codes "name: queueway-" ++ slug)
        ++ services_mark
        ++ line_of (join_lines ts)
        ++ codes "volumes:\n"
        ++ tail services)
      (texts-blocks_of services)
    ∙ ap (λ s. remark ++ (codes "name: queueway-" ++ s))
        (nested (slug ++ 10 ∷ []) services_mark (line_of (body_of services)) (codes "volumes:\n")
            (tail services)
          ∙ ap (λ s. (slug ++ 10 ∷ []) ++ (services_mark ++ s))
              (append_assoc (body_of services) (10 ∷ []) (codes "volumes:\n" ++ tail services)))

no_mark_follows :
    (services : List Service) (rest : List ℕ)
    → skips volumes_mark services_mark (body_of services ++ (volumes_mark ++ rest)) ≡ true
no_mark_follows [] rest = refl
no_mark_follows ((n, t) ∷ []) rest = refl
no_mark_follows ((n, t) ∷ (m, u) ∷ more) rest = refl

-- The services of a compose file that the setup wrote are read back as they were written, in their
-- order, if the name of the project is one line, every service is whole, no two have the same
-- name, and none has a line of its own that reads `volumes:`.
pub read-compose_text :
    (slug : List ℕ) (services : List Service)
    → IsLine slug
    → All IsWhole (texts services)
    → AreServices [] services
    → skips volumes_mark (body_of services) (volumes_mark ++ tail services) ≡ true
    → existing_blocks (some (compose_text slug (blocks_of services))) ≡ blocks_of services
unfolding existing_blocks content
read-compose_text slug services l w a v =
    let body = body_of services in
    let rest = tail services in
    let (s, _) = head_has_no_mark slug (body ++ (volumes_mark ++ rest)) l in
    let (_, u) = head_has_no_mark slug (body ++ (volumes_mark ++ rest)) l in
    ap (λ c. blocks_from c (index_of services_mark 0 c)) (layout slug services)
    ∙ blocks_from_body (head slug) body rest s (
        skips-append volumes_mark (head slug) (services_mark ++ body) (volumes_mark ++ rest) u (
          skips-append volumes_mark services_mark body (volumes_mark ++ rest)
            (no_mark_follows services rest) v))
    ∙ ap (λ parts. collect parts []) (split-body (texts services) w)
    ∙ collect-parts_of services [] a
