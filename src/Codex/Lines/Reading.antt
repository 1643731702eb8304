-- ===== src/Codex/Lines/Reading.antt =====
-- internal/codex/jsonrpc.go: a line is read the same however the reader cuts it.
use mathlib.Core.List.{append_assoc}
use agent_room.Prelude.{
  ℕ, ◌+◌, ◌≡◌, refl, sym, ap, ◌∙◌, inl, inr, Bool, true, false, List, [], ◌∷◌, ◌++◌, map, ltb,
  if◌then◌else◌, length, length-append, arith, Bool-cases,
}
use agent_room.Codex.Lines.{
  max_line, line_too_long, empty_line, Fragment, buffer_full, no_error, Line, line, failed, newline,
  ends_line, without_last, end_line, take_fragment, end_of_read, read_line,
}

-- The buffer was full: the bytes so far, with no newline.
abbrev pub part : List ℕ → Fragment
part bytes = record { bytes = bytes; error = buffer_full }

-- The bytes up to the newline.
abbrev pub last_part : List ℕ → Fragment
last_part bytes = record { bytes = bytes ++ newline ∷ []; error = no_error }

abbrev pub join : List (List ℕ) → List ℕ
join [] = []
join (b ∷ bs) = b ++ join bs

-- No part ends with a newline.
abbrev pub AreOpen : List (List ℕ) → Type 0
AreOpen [] = Unit
AreOpen (b ∷ bs) = (ends_line b ≡ false) × AreOpen bs

ends_line-snoc : (bs : List ℕ) → ends_line (bs ++ newline ∷ []) ≡ true
unfolding ends_line
ends_line-snoc [] = refl
ends_line-snoc (b ∷ []) = refl
ends_line-snoc (b ∷ c ∷ bs) = ends_line-snoc (c ∷ bs)

without_last-snoc : (bs : List ℕ) → without_last (bs ++ newline ∷ []) ≡ bs
unfolding without_last
without_last-snoc [] = refl
without_last-snoc (b ∷ []) = refl
without_last-snoc (b ∷ c ∷ bs) = ap (λ xs. b ∷ xs) (without_last-snoc (c ∷ bs))

-- The line as a whole.
abbrev pub whole : (List ℕ → Bool) → List ℕ → List Fragment → Line
whole is_blank bytes rest =
    if ltb max_line (length bytes)
    then failed line_too_long
    else if is_blank bytes
    then failed empty_line
    else line bytes rest

module _ (is_blank : List ℕ → Bool) where
  read_last :
      (acc bytes : List ℕ) (rest : List Fragment)
      → read_line is_blank acc (last_part bytes ∷ rest) ≡ whole is_blank (acc ++ bytes) rest
  unfolding read_line take_fragment end_line
  read_last acc bytes rest =
      rw
        (
          read_line,
          ends_line-snoc bytes,
          without_last-snoc bytes,
          take_fragment,
          end_line,
          length-append acc bytes,
        )
        refl

  too_long :
      (bytes : List ℕ) (rest : List Fragment)
      → ltb max_line (length bytes) ≡ true
      → whole is_blank bytes rest ≡ failed line_too_long
  too_long bytes rest h = rw h refl

  read_parts :
      (acc : List ℕ) (bs : List (List ℕ)) (last : List ℕ) (rest : List Fragment)
      → AreOpen bs
      → read_line is_blank acc (map part bs ++ last_part last ∷ rest)
        ≡ whole is_blank (acc ++ (join bs ++ last)) rest
  unfolding read_line take_fragment end_of_read
  read_parts acc [] last rest h = read_last acc last rest
  read_parts acc (b ∷ bs) last rest h =
      let all = acc ++ ((b ++ join bs) ++ last) in
      elim (Bool-cases (ltb max_line (length acc + length b))) [
        | inl long ↦
            let more : ltb max_line (length all) ≡ true = ground (
              arith,
              length-append acc ((b ++ join bs) ++ last),
              length-append (b ++ join bs) last,
              length-append b (join bs),
            ) in
            rw (read_line, h.0, take_fragment, long) (sym (too_long all rest more))
        | inr fits ↦
            rw (read_line, h.0, take_fragment, fits)
              (read_parts (acc ++ b) bs last rest h.1
                ∙ ap (λ xs. whole is_blank xs rest) (rw (append_assoc, append_assoc) refl))
      ]

  -- However the reader cuts the bytes before a newline into parts that end with no newline, the line
  -- is read as a whole: it is too long above the limit of 8 MiB, it is refused if it is blank, and
  -- else its bytes are given back in order, without the newline, with what follows left to read.
  pub read_line-whole :
      (bs : List (List ℕ)) (last : List ℕ) (rest : List Fragment)
      → AreOpen bs
      → read_line is_blank [] (map part bs ++ last_part last ∷ rest)
        ≡ whole is_blank (join bs ++ last) rest
  read_line-whole bs last rest h = read_parts [] bs last rest h
