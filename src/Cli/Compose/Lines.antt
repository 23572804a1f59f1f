-- ===== src/Cli/Compose/Lines.antt =====
-- dockerServices.ts: the blocks of `serviceBlock` line by line.
use mathlib.Core.List.{append_assoc}
use queueway.Base.{
  ◌%◌, ◌/◌, All-append, inr, inl, ltb, ◌+◌, arith, nat_eq, Bool-cases, ◌≡◌, ◌∙◌, refl, ap, ℕ, zero,
  suc, true, false, List, [], ◌∷◌, ◌++◌, All, map, is_empty, codes, trim_end, join_lines, digits,
}
use queueway.Cli.ServiceBlock.{line_of, lines_text}
use queueway.Cli.Compose.Parts.{unsplit}
use queueway.Cli.Compose.Searching.{skips}
use queueway.Cli.Compose.ReadBack.{IsLine, volumes_mark}

-- A line inside a service.
abbrev pub indent : List ℕ → List ℕ
indent m = codes "    " ++ m

pub line-lines :
    (l : List ℕ) (ls : List (List ℕ)) → line_of (join_lines (l ∷ ls)) ≡ lines_text (l ∷ ls)
line-lines l [] = refl
line-lines l (m ∷ ls) =
    append_assoc l (10 ∷ join_lines (m ∷ ls)) (10 ∷ []) ∙ ap (λ t. l ++ 10 ∷ t) (line-lines m ls)

nat_eq_swap : (c : ℕ) → nat_eq 10 c ≡ false → nat_eq c 10 ≡ false
nat_eq_swap c h = ground (arith, h)

above : (n : ℕ) → nat_eq 10 (48 + n) ≡ false
above n = ground arith

nonempty : (s t : List ℕ) → is_empty t ≡ false → is_empty (s ++ t) ≡ false
nonempty [] t k = k
nonempty (c ∷ s) t k = refl

unsplit_line : (m rest : List ℕ) → IsLine m → unsplit false (m ++ 10 ∷ rest) ≡ unsplit true rest
unsplit_line [] rest h = refl
unsplit_line (c ∷ m) rest (h, k) = rw (nat_eq_swap c h) (unsplit_line m rest k)

pub unsplit_lines :
    (ms : List (List ℕ)) → All IsLine ms → unsplit true (lines_text (map indent ms)) ≡ true
unsplit_lines [] h = refl
unsplit_lines (m ∷ ms) (h, k) = unsplit_line m (lines_text (map indent ms)) h ∙ unsplit_lines ms k

skips_text :
    (m rest : List ℕ) (r : List ℕ)
    → IsLine m
    → skips volumes_mark rest r ≡ true
    → skips volumes_mark (m ++ rest) r ≡ true
skips_text [] rest r h k = k
skips_text (c ∷ m) rest r (h, i) k = rw h (skips_text m rest r i k)

-- Behind these lines stands an empty one.
pub skips_lines :
    (ms : List (List ℕ)) (r : List ℕ)
    → All IsLine ms
    → skips volumes_mark (10 ∷ lines_text (map indent ms)) (10 ∷ r) ≡ true
skips_lines [] r h = refl
skips_lines (m ∷ ms) r (h, k) =
    skips_text m (10 ∷ lines_text (map indent ms)) (10 ∷ r) h (skips_lines ms r k)

trim_behind : (s t : List ℕ) → trim_end t ≡ t → is_empty t ≡ false → trim_end (s ++ t) ≡ s ++ t
trim_behind [] t h k = h
trim_behind (c ∷ s) t h k = rw (trim_behind s t h k, nonempty s t k) (ground arith)

pub IsLine-digits : (places n : ℕ) → IsLine (digits places n)
IsLine-digits zero n = tt
IsLine-digits (suc p) n = elim (Bool-cases (ltb n 10)) [
  | inl e ↦ rw (e, digits) (above n, tt)
  | inr e ↦
      rw (e, digits)
        (All-append (λ c. nat_eq 10 c ≡ false) (digits p (n / 10)) ((48 + n % 10) ∷ [])
          (IsLine-digits p (n / 10)) (above (n % 10), tt))
]
