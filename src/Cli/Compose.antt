-- ===== src/Cli/Compose.antt =====
-- packages/core/src/cli/lib/dockerServices.ts: the text of the compose file, and the services that are in it
-- already. In it `^` stands behind a line feed, and a service is a block of text under its name.
pub mod Collecting
pub mod Keeping
pub mod Lines
pub mod Parts
pub mod ReadBack
pub mod Searching
use queueway.Cli.ServiceBlock.{line_of, lines_text, service_block}
use queueway.Base.{
  trim_end, onto_first, after_prefix, ◌-◌, ◌&&◌, ◌||◌, ◌+◌, take, is_empty, nat_eq, join_lines,
  true, text_eq, zero, is_some, none, leb, ◌++◌, suc, false, ◌∷◌, trim, some, codes, [],
  if◌then◌else◌, Option, List, ℕ, Bool,
}
use queueway.Cli.Machine.{ServiceSpec, postgres, redis, rabbitmq}
use queueway.Cli.Docker.{service_text}

-- `content.indexOf(word)`, from a position on.
abbrev pub index_of : List ℕ → ℕ → List ℕ → Option ℕ
index_of word at [] = if is_some (after_prefix word []) then some at else none
index_of word at (c ∷ s) =
    let rest = index_of word (at + 1) s in
    if is_some (after_prefix word (c ∷ s)) then some at else rest

abbrev pub drop_chars : ℕ → List ℕ → List ℕ
drop_chars zero s = s
drop_chars (suc n) [] = []
drop_chars (suc n) (c ∷ s) = drop_chars n s

-- `content.slice(start, end)`
abbrev pub slice : ℕ → Option ℕ → List ℕ → List ℕ
slice start none s = drop_chars start s
slice start (some end) s = take (end - start) (drop_chars start s)

-- Whether the two spaces and the small letter of a service's name stand here.
abbrev pub is_small : List ℕ → Bool
is_small [] = false
is_small (c ∷ s) = leb 97 c && leb c 122

abbrev pub opens_service : Option (List ℕ) → Bool
opens_service none = false
opens_service (some rest) = is_small rest

-- The second of the two spaces goes, and what stands before them is a part.
abbrev pub new_part : List (List ℕ) → List (List ℕ)
new_part [] = [] ∷ []
new_part ([] ∷ parts) = [] ∷ [] ∷ parts
new_part ((c ∷ part) ∷ parts) = [] ∷ part ∷ parts

-- `body.split(/^ {2}(?=[a-z])/m)`. The flag: a line starts here.
abbrev pub split_parts : Bool → List ℕ → List (List ℕ)
split_parts first [] = [] ∷ []
split_parts first (c ∷ s) =
    let rest = split_parts (nat_eq c 10) s in
    if first && opens_service (after_prefix (codes "  ") (c ∷ s))
    then new_part rest
    else onto_first c rest

abbrev pub before_colon : List ℕ → List ℕ
before_colon [] = []
before_colon (c ∷ s) = let rest = before_colon s in if nat_eq c 58 then [] else c ∷ rest

abbrev pub without_last : List ℕ → List ℕ
without_last [] = []
without_last (c ∷ []) = []
without_last (c ∷ d ∷ s) = c ∷ without_last (d ∷ s)

abbrev pub has_colon : List ℕ → Bool
has_colon [] = false
has_colon (c ∷ s) = nat_eq c 58 || has_colon s

-- `part.slice(0, part.indexOf(":")).trim()`, where an index of -1 leaves out the last character.
abbrev pub part_name : List ℕ → List ℕ
part_name part = trim (if has_colon part then before_colon part else without_last part)

-- `blocks[name] = …`: a new key goes to the end.
abbrev pub set_block : List ℕ → List ℕ → List (List ℕ × List ℕ) → List (List ℕ × List ℕ)
set_block name block [] = (name, block) ∷ []
set_block name block ((n, b) ∷ blocks) =
    if text_eq n name then (n, block) ∷ blocks else (n, b) ∷ set_block name block blocks

abbrev pub collect : List (List ℕ) → List (List ℕ × List ℕ) → List (List ℕ × List ℕ)
collect [] blocks = blocks
collect (part ∷ parts) blocks =
    let name = part_name part in
    collect parts (
      if is_empty (trim part) || is_empty name
      then blocks
      else set_block name (codes "  " ++ line_of (trim_end part)) blocks)

abbrev pub blocks_from : List ℕ → Option ℕ → List (List ℕ × List ℕ)
blocks_from content none = []
blocks_from content (some at) =
    collect (split_parts true (slice (at + 11) (index_of (codes "\nvolumes:\n") 0 content) content))
      []

-- No file is as a file without services.
unfoldable pub existing_blocks : Option (List ℕ) → List (List ℕ × List ℕ)
existing_blocks none = []
existing_blocks (some content) = blocks_from content (index_of (codes "\nservices:\n") 0 content)

unfoldable pub with_specs :
    List ℕ → List ServiceSpec → List (List ℕ × List ℕ) → List (List ℕ × List ℕ)
with_specs slug [] blocks = blocks
with_specs slug (spec ∷ specs) blocks =
    with_specs slug specs (set_block (service_text spec.name) (service_block spec slug) blocks)

abbrev pub volume_lines : List (List ℕ × List ℕ) → List (List ℕ)
volume_lines [] = []
volume_lines ((name, block) ∷ blocks) =
    let rest = volume_lines blocks in
    if text_eq name (codes "postgres")
    then codes "  pgdata:" ∷ rest
    else if text_eq name (codes "redis")
    then codes "  redisdata:" ∷ rest
    else if text_eq name (codes "rabbitmq")
    then codes "  rabbitdata:" ∷ rest
    else rest

abbrev pub texts_of : List (List ℕ × List ℕ) → List (List ℕ)
texts_of [] = []
texts_of ((name, block) ∷ blocks) = block ∷ texts_of blocks

abbrev pub remark : List ℕ
remark = lines_text (
    codes "# Generated by `queueway init` — safe to commit and to edit."
    ∷ codes "# Runs Queueway's own services; nothing else on this machine is touched."
    ∷ codes "#"
    ∷ codes "#   docker compose -f docker-compose.queueway.yml up -d      start"
    ∷ codes "#   docker compose -f docker-compose.queueway.yml ps         status"
    ∷ codes "#   docker compose -f docker-compose.queueway.yml down       stop (data kept)"
    ∷ codes
        "#   docker compose -f docker-compose.queueway.yml down -v    stop and delete all job data"
    ∷ []
    ∷ [])

unfoldable pub compose_text : List ℕ → List (List ℕ × List ℕ) → List ℕ
compose_text slug blocks =
    remark
    ++ line_of (codes "name: queueway-" ++ slug)
    ++ codes "\nservices:\n"
    ++ line_of (join_lines (texts_of blocks))
    ++ codes "volumes:\n"
    ++ line_of (join_lines (volume_lines blocks))

-- The new text of the file, by its old one.
unfoldable pub write_compose_file : List ServiceSpec → List ℕ → Option (List ℕ) → List ℕ
write_compose_file specs slug file =
    compose_text slug (with_specs slug specs (existing_blocks file))
