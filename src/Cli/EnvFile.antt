-- ===== src/Cli/EnvFile.antt =====
-- packages/core/src/cli/lib/envFile.ts: editing `.env` and `.gitignore`, and the project's name. The source
-- builds a regular expression from a key: a key without metacharacters stands for itself in it, and
-- `regex` is what JavaScript's RegExp says to any other key and a line.
use mathlib.Core.Option
pub mod Reading
pub mod Trimming
pub mod Splitting
pub mod Keys
pub mod RoundTrip
pub mod Naming
pub mod Ignoring
use queueway.Base.{
  not, invalid, err, ◌+◌, length, ◌&&◌, join_lines, skip_spaces, ◌||◌, nat_eq, true, none, ok,
  is_empty, leb, is_some, false, split_lines, after_prefix, text_eq, ◌∷◌, trim, if◌then◌else◌,
  codes, any, Bool, ◌++◌, trim_end, some, [], Exec, ℕ, List, Option,
}

-- The files of a project.
pub record Project : Type 0 where
  pub env : Option (List ℕ)
  pub gitignore : Option (List ℕ)
  pub has_git : Bool

abbrev pub owned_prefix : List ℕ
owned_prefix = codes "QUEUEWAY_"

abbrev pub is_equals : List ℕ → Bool
is_equals [] = false
is_equals (c ∷ s) = nat_eq c 61

abbrev pub opens_value : Option (List ℕ) → Bool
opens_value none = false
opens_value (some s) = is_equals (skip_spaces s)

abbrev pub is_meta : ℕ → Bool
is_meta c = any (nat_eq c) (codes "\\^$.*+?()[]{}|")

-- No character of the key has a meaning in a regular expression.
abbrev pub is_literal : List ℕ → Bool
is_literal [] = true
is_literal (c ∷ key) = not (is_meta c) && is_literal key

-- `new RegExp("^\\s*" + key + "\\s*=").test(line)`
unfoldable pub assigns : (List ℕ → List ℕ → Bool) → List ℕ → List ℕ → Bool
assigns regex key line =
    if is_literal key then opens_value (after_prefix key (skip_spaces line)) else regex key line

abbrev pub find_line : (List ℕ → Bool) → List (List ℕ) → Option (List ℕ)
find_line p [] = none
find_line p (l ∷ ls) = if p l then some l else find_line p ls

-- The line found is replaced; with none found, the new one is pushed.
abbrev pub set_line : (List ℕ → Bool) → List ℕ → List (List ℕ) → List (List ℕ)
set_line p new [] = new ∷ []
set_line p new (l ∷ ls) = if p l then new ∷ ls else l ∷ set_line p new ls

pub record Upserted : Type 0 where
  pub lines : List (List ℕ)
  pub added : List (List ℕ)
  pub updated : List (List ℕ)

abbrev pub assignment : List ℕ → List ℕ → List ℕ
assignment key value = key ++ 61 ∷ value

abbrev pub note : List ℕ → List ℕ → Option (List ℕ) → Upserted → Upserted
note key line none u = record u { added = u.added ++ key ∷ [] }
note key line (some old) u =
    if text_eq old line then u else record u { updated = u.updated ++ key ∷ [] }

unfoldable pub upsert_one : (List ℕ → List ℕ → Bool) → List ℕ → List ℕ → Upserted → Upserted
upsert_one regex key value u =
    record (note key (assignment key value) (find_line (assigns regex key) u.lines) u) {
      lines = set_line (assigns regex key) (assignment key value) u.lines;
    }

unfoldable pub upsert_all : (List ℕ → List ℕ → Bool) → List (List ℕ × List ℕ) → Upserted → Upserted
upsert_all regex [] u = u
upsert_all regex ((key, value) ∷ vars) u = upsert_all regex vars (upsert_one regex key value u)

abbrev pub trim_newlines : List ℕ → List ℕ
trim_newlines [] = []
trim_newlines (c ∷ s) =
    let rest = trim_newlines s in if nat_eq c 10 && is_empty rest then [] else c ∷ rest

-- `.replace(/\n{3,}$/, "\n\n")`
unfoldable pub squash_end : List ℕ → List ℕ
squash_end s =
    let body = trim_newlines s in
    if leb (length body + 3) (length s) then body ++ 10 ∷ 10 ∷ [] else s

-- `.replace(/\s*$/, "\n")`
abbrev pub end_line : List ℕ → List ℕ
end_line s = trim_end s ++ 10 ∷ []

abbrev pub lines_of : Option (List ℕ) → List (List ℕ)
lines_of none = []
lines_of (some s) = if is_empty s then [] else split_lines s

abbrev pub is_owned : List ℕ → Bool
is_owned key = is_some (after_prefix owned_prefix key)

abbrev pub all_owned : List (List ℕ × List ℕ) → Bool
all_owned [] = true
all_owned ((key, value) ∷ vars) = is_owned key && all_owned vars

abbrev pub upserted : (List ℕ → List ℕ → Bool) → Option (List ℕ) → List (List ℕ × List ℕ) → Upserted
upserted regex env vars =
    upsert_all regex vars (record { lines = lines_of env; added = []; updated = [] })

unfoldable pub upsert_env :
    (List ℕ → List ℕ → Bool) → List (List ℕ × List ℕ) → Exec Project (List (List ℕ) × List (List ℕ))
upsert_env regex vars p =
    if all_owned vars
    then (let u = upserted regex p.env vars in
        (
          ok (u.added, u.updated),
          record p { env = some (end_line (squash_end (join_lines u.lines))) },
        ))
    else (err invalid, p)

abbrev pub after_equals : List ℕ → List ℕ
after_equals [] = []
after_equals (c ∷ s) = if nat_eq c 61 then s else after_equals s

abbrev pub is_quote : ℕ → Bool
is_quote c = nat_eq c 34 || nat_eq c 39

abbrev pub unquote_start : List ℕ → List ℕ
unquote_start [] = []
unquote_start (c ∷ s) = if is_quote c then s else c ∷ s

abbrev pub unquote_end : List ℕ → List ℕ
unquote_end [] = []
unquote_end (c ∷ []) = if is_quote c then [] else c ∷ []
unquote_end (c ∷ d ∷ s) = c ∷ unquote_end (d ∷ s)

-- `.replace(/^["']|["']$/g, "")`
abbrev pub unquote : List ℕ → List ℕ
unquote s = unquote_end (unquote_start s)

unfoldable pub value_of : List ℕ → List ℕ
value_of line = unquote (trim (after_equals line))

abbrev pub read_lines : (List ℕ → List ℕ → Bool) → List ℕ → List (List ℕ) → Option (List ℕ)
read_lines regex key ls = Option.map value_of (find_line (assigns regex key) ls)

abbrev pub read_text : (List ℕ → List ℕ → Bool) → List ℕ → Option (List ℕ) → Option (List ℕ)
read_text regex key none = none
read_text regex key (some s) = read_lines regex key (split_lines s)

unfoldable pub read_env_value : (List ℕ → List ℕ → Bool) → List ℕ → Project → Option (List ℕ)
read_env_value regex key p = read_text regex key p.env

pub data Ignored : Type 0 where
  already added no_git : Ignored

abbrev pub is_env_line : List ℕ → Bool
is_env_line line =
    let name = trim line in
    text_eq name (codes ".env") || text_eq name (codes ".env*") || text_eq name (codes "*.env")

abbrev pub some_line : (List ℕ → Bool) → List (List ℕ) → Bool
some_line p [] = false
some_line p (l ∷ ls) = p l || some_line p ls

abbrev pub ends_line : List ℕ → Bool
ends_line [] = false
ends_line (c ∷ []) = nat_eq c 10
ends_line (c ∷ d ∷ s) = ends_line (d ∷ s)

abbrev pub text_of : Option (List ℕ) → List ℕ
text_of none = []
text_of (some s) = s

-- The line break that ends the text's last line, the remark and the entry.
unfoldable pub addition : List ℕ → List ℕ
addition content =
    (if not (is_empty content) && not (ends_line content) then 10 ∷ [] else [])
    ++ 10 ∷ codes "# Queueway writes database credentials here"
    ++ 10 ∷ codes ".env"
    ++ 10 ∷ []

unfoldable pub is_ignored : List ℕ → Bool
is_ignored content = some_line is_env_line (split_lines content)

unfoldable pub ensure_env_ignored : Project → Ignored × Project
ensure_env_ignored p =
    let content = text_of p.gitignore in
    if not p.has_git && not (is_some p.gitignore)
    then (no_git, p)
    else if is_ignored content
    then (already, p)
    else (added, record p { gitignore = some (content ++ addition content) })
