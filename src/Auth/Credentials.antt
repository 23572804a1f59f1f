-- ===== src/Auth/Credentials.antt =====
-- packages/core/src/auth/authRoutes.ts: the tests on what a request carries.
use queueway.Base.{
  is_space_code, chars, ℕ, ◌+◌, String, Bool, true, false, not, ◌&&◌, ◌||◌, List, [], ◌∷◌, Option,
  none, some, nat_eq, ◌==◌, if◌then◌else◌,
}
use Prim.Native.Char.{Char, code, len_utf8}

-- `[^\s@]`
unfoldable pub is_plain : Char → Bool
is_plain c = not (is_space_code (code c)) && not (nat_eq (code c) 64)

-- `[^\s@]*`
abbrev pub all_plain : List Char → Bool
all_plain [] = true
all_plain (c ∷ cs) = is_plain c && all_plain cs

-- `\.[^\s@]+$` at some place of the rest; what stands before it is plain.
unfoldable pub domain_rest : List Char → Bool
domain_rest [] = false
domain_rest (c ∷ []) = false
domain_rest (c ∷ d ∷ cs) =
    let rest = domain_rest (d ∷ cs) in
    (nat_eq (code c) 46 && all_plain (d ∷ cs)) || (is_plain c && rest)

-- `[^\s@]+\.[^\s@]+$`
unfoldable pub is_domain : List Char → Bool
is_domain [] = false
is_domain (c ∷ cs) = is_plain c && domain_rest cs

-- `[^\s@]*@…`: the rest of the local part, then the domain.
unfoldable pub local_rest : List Char → Bool
local_rest [] = false
local_rest (c ∷ cs) =
    let rest = local_rest cs in if nat_eq (code c) 64 then is_domain cs else is_plain c && rest

abbrev pub local_part : List Char → Bool
local_part [] = false
local_part (c ∷ cs) = is_plain c && local_rest cs

-- `/^[^\s@]+@[^\s@]+\.[^\s@]+$/.test(email)`
unfoldable pub is_valid_email : String → Bool
is_valid_email email = local_part (chars email)

abbrev pub code_units : List Char → ℕ
code_units [] = 0
code_units (c ∷ cs) = (if nat_eq (len_utf8 c) 4 then 2 else 1) + code_units cs

-- `password.length`: a character outside the basic plane counts twice.
unfoldable pub utf16_length : String → ℕ
utf16_length s = code_units (chars s)

-- A field that is missing or empty fails the test `!field`.
abbrev pub present : Option String → Option String
present none = none
present (some s) = if s == "" then none else some s
