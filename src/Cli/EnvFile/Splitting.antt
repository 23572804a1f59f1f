-- ===== src/Cli/EnvFile/Splitting.antt =====
-- envFile.ts: what is read from a text after it was cut into lines, joined and trimmed.
use mathlib.Core.List.{append_assoc, append-nil}
use queueway.Base.{
  Bool, join_lines, starts_line, ◌&&◌, inr, after_prefix, inl, nat_eq, ◌∙◌, false, Bool-cases, sym,
  true, ap, is_space_code, [], ◌++◌, All, ◌≡◌, trim_end, ◌∷◌, ℕ, split_lines, List, refl,
}
use queueway.Cli.EnvFile.Reading.{assigns_lem, read-trim_end, IsPlain}
use queueway.Cli.EnvFile.Trimming.{
  after, after-onto_first, IsBlank, trim_end-blank, no_break, IsLine, and_false, return_blank,
  join-cons, split-nil, split-newline, split-return, split-cons, newline_blank, trim_end_parts,
  trim_end-squash_end,
}
use queueway.Cli.EnvFile.{squash_end, end_line, opens_value, assigns, read_lines}

module _ (regex : List ℕ → List ℕ → Bool) (key : List ℕ) (plain : IsPlain key) where
  pub assigns_nil : assigns regex key [] ≡ false
  assigns_nil = assigns_lem regex key [] plain ∙ nil key
    where
      nil : (k : List ℕ) → opens_value (after_prefix k []) ≡ false
      nil [] = refl
      nil (c ∷ k) = refl

  read-after_nil :
      (ls : List (List ℕ)) → read_lines regex key (after [] ls) ≡ read_lines regex key ls
  read-after_nil [] = rw assigns_nil refl
  read-after_nil (l ∷ ls) = refl

  read-cons :
      (p : List ℕ) (ls ms : List (List ℕ))
      → read_lines regex key ls ≡ read_lines regex key ms
      → read_lines regex key (p ∷ ls) ≡ read_lines regex key (p ∷ ms)
  read-cons p ls ms e = elim (Bool-cases (assigns regex key p)) [
    | inl t ↦ rw t refl
    | inr t ↦ rw t e
  ]

  read-append_nil :
      (p : List ℕ) (ls : List (List ℕ))
      → read_lines regex key ((p ++ []) ∷ ls) ≡ read_lines regex key (p ∷ ls)
  read-append_nil p ls = ap (λ x. read_lines regex key (x ∷ ls)) (append-nil p)

  read-drop_blank :
      (p : List ℕ) (c : ℕ) (ls : List (List ℕ))
      → is_space_code c ≡ true
      → read_lines regex key ((p ++ c ∷ []) ∷ ls) ≡ read_lines regex key (p ∷ ls)
  read-drop_blank p c ls h =
      read-trim_end regex key (p ++ c ∷ []) p ls plain (trim_end-blank p (c ∷ []) (h, tt))

  -- A blank tail of the text does not show in what is read.
  read-blank :
      (p w : List ℕ)
      → IsBlank w
      → read_lines regex key (after p (split_lines w)) ≡ read_lines regex key (p ∷ [])
  unfolding split_lines
  read-blank p [] h = read-append_nil p []
  read-blank p (c ∷ w) h = elim (Bool-cases (nat_eq c 10)) [
    | inl e ↦ rw e (
        read-append_nil p (split_lines w)
        ∙ read-cons p (split_lines w) ([] ∷ [])
            (sym (read-after_nil (split_lines w)) ∙ read-blank [] w h.1)
        ∙ read-cons p ([] ∷ []) [] (rw assigns_nil refl))
    | inr e ↦ elim (Bool-cases (nat_eq c 13 && starts_line w)) [
      | inl f ↦ rw (e, f) (read-blank p w h.1)
      | inr f ↦
          rw (e, f)
            (rw (after-onto_first p c (split_lines w))
              (read-blank (p ++ c ∷ []) w h.1 ∙ read-drop_blank p c [] h.0))
    ]
  ]

  read-tail :
      (p a w w' : List ℕ)
      → IsBlank w
      → IsBlank w'
      → read_lines regex key (after p (split_lines (a ++ w)))
        ≡ read_lines regex key (after p (split_lines (a ++ w')))
  unfolding split_lines
  read-tail p [] w w' h h' = read-blank p w h ∙ sym (read-blank p w' h')
  read-tail p (c ∷ []) w w' h h' = elim (Bool-cases (is_space_code c)) [
    | inl s ↦ read-blank p (c ∷ w) (s, h) ∙ sym (read-blank p (c ∷ w') (s, h'))
    | inr s ↦
        let (n, r) = no_break c s in
        rw (n, r)
          (rw (after-onto_first p c (split_lines w), after-onto_first p c (split_lines w'))
            (read-tail (p ++ c ∷ []) [] w w' h h'))
  ]
  read-tail p (c ∷ d ∷ a) w w' h h' = elim (Bool-cases (nat_eq c 10)) [
    | inl e ↦ rw e (
        read-cons (p ++ []) (split_lines ((d ∷ a) ++ w)) (split_lines ((d ∷ a) ++ w')) (
          sym (read-after_nil (split_lines ((d ∷ a) ++ w)))
          ∙ read-tail [] (d ∷ a) w w' h h'
          ∙ read-after_nil (split_lines ((d ∷ a) ++ w'))))
    | inr e ↦ elim (Bool-cases (nat_eq c 13 && nat_eq d 10)) [
      | inl f ↦ rw (e, f) (read-tail p (d ∷ a) w w' h h')
      | inr f ↦
          rw (e, f)
            (rw
              (
                after-onto_first p c (split_lines ((d ∷ a) ++ w)),
                after-onto_first p c (split_lines ((d ∷ a) ++ w')),
              )
              (read-tail (p ++ c ∷ []) (d ∷ a) w w' h h'))
    ]
  ]

  read-join :
      (p l : List ℕ) (ls : List (List ℕ))
      → IsLine l
      → All IsLine ls
      → read_lines regex key (after p (split_lines (join_lines (l ∷ ls))))
        ≡ read_lines regex key ((p ++ l) ∷ ls)
  read-join p [] [] h hs = rw split-nil refl
  read-join p [] (m ∷ ms) h hs = rw (split-newline (join_lines (m ∷ ms))) (
      read-cons (p ++ []) (split_lines (join_lines (m ∷ ms))) (m ∷ ms)
        (sym (read-after_nil (split_lines (join_lines (m ∷ ms)))) ∙ read-join [] m ms hs.0 hs.1))
  read-join p (c ∷ []) [] h hs = rw (split-cons c [] h.0 (and_false (nat_eq c 13)), split-nil) refl
  read-join p (c ∷ []) (m ∷ ms) h hs =
      let rest = join_lines (m ∷ ms) in
      let again : read_lines regex key (split_lines rest) ≡ read_lines regex key (m ∷ ms) =
        sym (read-after_nil (split_lines rest)) ∙ read-join [] m ms hs.0 hs.1 in
      elim (Bool-cases (nat_eq c 13)) [
        | inl e ↦
            rw (split-return c rest e, split-newline rest)
              (read-append_nil p (split_lines rest)
                ∙ read-cons p (split_lines rest) (m ∷ ms) again
                ∙ sym (read-drop_blank p c (m ∷ ms) (return_blank c e)))
        | inr e ↦
            rw (split-cons c (10 ∷ rest) h.0 (rw e refl), split-newline rest)
              (read-cons (p ++ c ∷ []) (split_lines rest) (m ∷ ms) again)
      ]
  read-join p (c ∷ d ∷ l) ls h hs =
      rw
        (
          join-cons c (d ∷ l) ls,
          split-cons c (join_lines ((d ∷ l) ∷ ls)) h.0
              (rw (join-cons d l ls, h.1.0) (and_false (nat_eq c 13))),
          after-onto_first p c (split_lines (join_lines ((d ∷ l) ∷ ls))),
        )
        (read-join (p ++ c ∷ []) (d ∷ l) ls h.1 hs
          ∙ ap (λ x. read_lines regex key (x ∷ ls)) (append_assoc p (c ∷ []) (d ∷ l)))

  pub read-rejoin :
      (l : List ℕ) (ls : List (List ℕ))
      → IsLine l
      → All IsLine ls
      → read_lines regex key (split_lines (join_lines (l ∷ ls))) ≡ read_lines regex key (l ∷ ls)
  read-rejoin l ls h hs =
      sym (read-after_nil (split_lines (join_lines (l ∷ ls)))) ∙ read-join [] l ls h hs

  -- Ending the text by one line break changes nothing that is read.
  read-end_line :
      (s : List ℕ)
      → read_lines regex key (split_lines (end_line s)) ≡ read_lines regex key (split_lines s)
  read-end_line s =
      let (w, h, e) = trim_end_parts s in
      sym (read-after_nil (split_lines (end_line s)))
      ∙ read-tail [] (trim_end s) (10 ∷ []) w (newline_blank, tt) h
      ∙ read-after_nil (split_lines (trim_end s ++ w))
      ∙ ap (λ x. read_lines regex key (split_lines x)) (sym e)

  pub read-end-squash :
      (s : List ℕ)
      → read_lines regex key (split_lines (end_line (squash_end s)))
        ≡ read_lines regex key (split_lines s)
  read-end-squash s =
      ap (λ x. read_lines regex key (split_lines (x ++ 10 ∷ []))) (trim_end-squash_end s)
      ∙ read-end_line s
