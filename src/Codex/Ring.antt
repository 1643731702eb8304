-- ===== src/Codex/Ring.antt =====
-- internal/codex/supervisor.go: the last bytes of the process's error stream.
use mathlib.Core.List.{append_assoc, append-nil}
use agent_room.Prelude.{
  ℕ, zero, suc, ◌+◌, ◌-◌, ◌≤◌, ◌≡◌, refl, sym, ap, ◌∙◌, inl, inr, List, [], ◌∷◌, ◌++◌,
  if◌then◌else◌, leb, length, length-append, drop, arith, Bool-cases,
}

pub record Ring : Type 0 where
  pub bytes : List ℕ
  pub capacity : ℕ

abbrev pub new_bounded_ring : ℕ → Ring
new_bounded_ring capacity = record { bytes = []; capacity = capacity }

-- `Write`: `overflow` is what does not fit.
unfoldable pub write : List ℕ → Ring → Ring
write new r =
    let overflow = length r.bytes + length new - r.capacity in
    if leb r.capacity (length new)
    then record r { bytes = drop (length new - r.capacity) new }
    else record r { bytes = drop overflow r.bytes ++ new }

unfoldable pub write_all : List (List ℕ) → Ring → Ring
unfolding write
write_all [] r = r
write_all (new ∷ later) r = write_all later (write new r)

abbrev pub concat : List (List ℕ) → List ℕ
concat [] = []
concat (xs ∷ xss) = xs ++ concat xss

-- The last bytes of a list, as many as fit.
abbrev pub last_of : ℕ → List ℕ → List ℕ
last_of n xs = drop (length xs - n) xs

drop-all : (n : ℕ) (xs : List ℕ) → length xs ≤ n → drop n xs ≡ []
drop-all zero [] h = refl
drop-all zero (x ∷ xs) h = absurd (omega arith)
drop-all (suc n) [] h = refl
drop-all (suc n) (x ∷ xs) h = drop-all n xs (omega arith)

drop-append : (n : ℕ) (xs ys : List ℕ) → n ≤ length xs → drop n (xs ++ ys) ≡ drop n xs ++ ys
drop-append zero xs ys h = refl
drop-append (suc n) [] ys h = absurd (omega arith)
drop-append (suc n) (x ∷ xs) ys h = drop-append n xs ys (omega arith)

drop-append_beyond :
    (n : ℕ) (xs ys : List ℕ) → length xs ≤ n → drop n (xs ++ ys) ≡ drop (n - length xs) ys
drop-append_beyond n [] ys h = ap (λ k. drop k ys) (omega arith)
drop-append_beyond zero (x ∷ xs) ys h = absurd (omega arith)
drop-append_beyond (suc n) (x ∷ xs) ys h =
    drop-append_beyond n xs ys (omega arith) ∙ ap (λ k. drop k ys) (omega arith)

drop-drop : (m n : ℕ) (xs : List ℕ) → drop m (drop n xs) ≡ drop (n + m) xs
drop-drop m zero xs = ap (λ k. drop k xs) (omega arith)
drop-drop m (suc n) [] = drop-all m [] (omega arith) ∙ sym (drop-all (suc n + m) [] (omega arith))
drop-drop m (suc n) (x ∷ xs) =
    drop-drop m n xs ∙ ap (λ k. drop k (x ∷ xs)) {x = suc (n + m)} (omega arith)

length-drop : (n : ℕ) (xs : List ℕ) → length (drop n xs) ≡ length xs - n
length-drop zero xs = omega arith
length-drop (suc n) [] = omega arith
length-drop (suc n) (x ∷ xs) = omega (arith, length-drop n xs)

-- One write after the bytes `xs`.
write-last_of :
    (cap : ℕ) (xs new : List ℕ)
    → (write new (record { bytes = last_of cap xs; capacity = cap })).bytes
      ≡ last_of cap (xs ++ new)
unfolding write
write-last_of cap xs new = elim (Bool-cases (leb cap (length new))) [
  | inl big ↦ rw big (
      sym (
        drop-append_beyond (length (xs ++ new) - cap) xs new (ground (arith, length-append xs new))
        ∙ ap (λ k. drop k new) (ground (arith, length-append xs new))))
  | inr small ↦
      let kept = length-drop (length xs - cap) xs in
      rw small (
        ap (λ zs. zs ++ new)
          (drop-drop (length (last_of cap xs) + length new - cap) (length xs - cap) xs)
        ∙ sym (
            drop-append (length xs - cap + (length (last_of cap xs) + length new - cap)) xs new
              (ground (arith, kept)))
        ∙ ap (λ k. drop k (xs ++ new)) (ground (arith, kept, length-append xs new)))
]

write-capacity : (new : List ℕ) (r : Ring) → (write new r).capacity ≡ r.capacity
unfolding write
write-capacity new r = ground arith

write_all-from :
    (cap : ℕ) (xss : List (List ℕ)) (seen : List ℕ)
    → (write_all xss (record { bytes = last_of cap seen; capacity = cap })).bytes
      ≡ last_of cap (seen ++ concat xss)
unfolding write_all
write_all-from cap [] seen = ap (last_of cap) (sym (append-nil seen))
write_all-from cap (new ∷ xss) seen =
    let before : Ring = record { bytes = last_of cap seen; capacity = cap } in
    let after_it : write new before ≡ record { bytes = last_of cap (seen ++ new); capacity = cap } =
      λ i. record {
        bytes = write-last_of cap seen new i;
        capacity = write-capacity new before i;
      } in
    ap (λ r. (write_all xss r).bytes) after_it
    ∙ write_all-from cap xss (seen ++ new)
    ∙ ap (last_of cap) (append_assoc seen new (concat xss))

-- After any writes, of any sizes, the ring holds the last bytes that were written, as many as its
-- capacity, in their order, and all of them where they fit.
pub write_all-last_of :
    (cap : ℕ) (xss : List (List ℕ))
    → (write_all xss (new_bounded_ring cap)).bytes ≡ last_of cap (concat xss)
write_all-last_of cap xss =
    ap (λ bs. (write_all xss (record { bytes = bs; capacity = cap })).bytes)
      (sym (drop-all (0 - cap) [] (omega arith)))
    ∙ write_all-from cap xss []
