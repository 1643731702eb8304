-- ===== src/Protocol/RoundTrip.antt =====
-- internal/protocol/framing.go: the body of a frame that is written is what is read.
use agent_room.Prelude.{
  ℕ, zero, suc, ◌≤◌, ◌<◌, ◌≡◌, refl, sym, ap, ◌∙◌, inl, inr, Bool, true, false, not, if◌then◌else◌,
  List, [], ◌∷◌, ◌++◌, none, some, ◌==◌, ltb, length, length-append, take, drop, arith, Bool-cases,
  Option-cases,
}
use mathlib.Core.List.{append_assoc}
use agent_room.Prelude.Int.{ℤ, pos, negsuc, pos_part}
use agent_room.Protocol.Envelope.{Envelope, validate, frame_too_large, invalid_utf8}
use agent_room.Protocol.Framing.{
  Codec, Outcome, done, failed, Reply, max_frame_bytes, put_uint32, uint32, read_full, then_read,
  decode_envelope, read_body, read, frame, write_full, after_write,
}

uint32-put_uint32 : (n : ℕ) → n < 4294967296 → uint32 (put_uint32 n) ≡ n
unfolding uint32 put_uint32
uint32-put_uint32 n h = omega arith

take-append : (xs ys : List ℕ) → take (length xs) (xs ++ ys) ≡ xs
take-append [] ys = refl
take-append (x ∷ xs) ys = ap (λ zs. x ∷ zs) (take-append xs ys)

drop-append : (xs ys : List ℕ) → drop (length xs) (xs ++ ys) ≡ ys
drop-append [] ys = refl
drop-append (x ∷ xs) ys = drop-append xs ys

read_full-append : (xs ys : List ℕ) → read_full (length xs) (xs ++ ys) ≡ done (xs, ys)
unfolding read_full
read_full-append xs ys =
    let enough : ltb (length (xs ++ ys)) (length xs) ≡ false =
      ground (arith, length-append xs ys) in
    rw (read_full, enough, take-append xs ys, drop-append xs ys) refl

module _ (codec : Codec) where
  record IsFrame (e : Envelope) (body bytes : List ℕ) : Type 0 where
    is_valid : validate codec.valid_json e ≡ none
    marshalled : codec.marshal e ≡ some body
    not_empty : (length body == 0) ≡ false
    in_bound : length body ≤ max_frame_bytes
    prefixed : put_uint32 (length body) ++ body ≡ bytes

  frame-IsFrame :
      (e : Envelope) {bytes : List ℕ}
      → frame codec e ≡ done bytes
      → (body : List ℕ) × IsFrame e body bytes
  unfolding frame
  frame-IsFrame e h = elim (Option-cases (validate codec.valid_json e)) [
    | inr (x, e1) ↦ absurd (ground (arith, rw (frame, e1) at h))
    | inl e1 ↦ elim (Option-cases (codec.marshal e)) [
      | inl e2 ↦ absurd (ground (arith, rw (frame, e1, e2) at h))
      | inr (body, e2) ↦ elim (Bool-cases (length body == 0)) [
        | inl e3 ↦ absurd (ground (arith, rw (frame, e1, e2, e3) at h))
        | inr e3 ↦ elim (Bool-cases (ltb max_frame_bytes (length body))) [
          | inl e4 ↦ absurd (ground (arith, rw (frame, e1, e2, e3, e4) at h))
          | inr e4 ↦ (
            body,
            record {
              is_valid = e1;
              marshalled = e2;
              not_empty = e3;
              in_bound = ground arith;
              prefixed = ground (arith, rw (frame, e1, e2, e3, e4) at h);
            },
          )
        ]
      ]
    ]
  ]

  -- What a reader does with the body of a frame and what follows it.
  abbrev pub received : ℕ → List ℕ → List ℕ → Outcome (Envelope × List ℕ)
  received maximum body rest =
      if ltb maximum (length body)
      then failed frame_too_large
      else if not (codec.valid_utf8 body)
      then failed invalid_utf8
      else then_read (decode_envelope codec body) λ e. done (e, rest)

  read_body-append :
      (maximum : ℕ) (body rest : List ℕ)
      → (length body == 0) ≡ false
      → read_body codec maximum (length body) (body ++ rest) ≡ received maximum body rest
  unfolding read_body
  read_body-append maximum body rest some_bytes =
      rw (read_body, some_bytes, read_full-append body rest) refl

  -- The framing is transparent. The frame that is written of an envelope, followed by any bytes: a
  -- reader with any bound takes from it the JSON text that was marshalled, the whole of it and no
  -- more, decodes it if it is within the bound and is UTF-8, and leaves the bytes that follow for the
  -- next read. A text beyond the bound is refused. Nothing is assumed of the JSON library.
  pub read-frame :
      (e : Envelope) (maximum : ℕ) (rest : List ℕ) {bytes : List ℕ}
      → frame codec e ≡ done bytes
      → (body : List ℕ) × (codec.marshal e ≡ some body)
        × (read codec maximum (bytes ++ rest) ≡ received maximum body rest)
  unfolding read put_uint32
  read-frame e maximum rest {bytes} h =
      let (body, f) = frame-IsFrame e h in
      let size = length body in
      let small : size < 4294967296 = omega (arith, f.in_bound) in
      (
        body,
        f.marshalled,
        ap (λ bs. read codec maximum (bs ++ rest)) (sym f.prefixed)
            ∙ ap (read codec maximum) (append_assoc (put_uint32 size) body rest)
            ∙ prefix_then (put_uint32 size) size (body ++ rest) refl (uint32-put_uint32 size small)
            ∙ read_body-append maximum body rest f.not_empty,
      )
    where
      prefix_then :
          (p : List ℕ) (n : ℕ) (more : List ℕ)
          → length p ≡ 4
          → uint32 p ≡ n
          → read codec maximum (p ++ more) ≡ read_body codec maximum n more
      prefix_then p n more four same = rw (read, sym four, read_full-append p more, same) refl

abbrev pub is_success : Outcome (Unit {0}) → Bool
is_success (done u) = true
is_success (failed e) = false

take-drop : (n : ℕ) (xs : List ℕ) → take n xs ++ drop n xs ≡ xs
take-drop zero xs = refl
take-drop (suc n) [] = refl
take-drop (suc n) (x ∷ xs) = ap (λ ys. x ∷ ys) (take-drop n xs)

-- The bytes are a first part of the body, and on success the whole of it.
abbrev pub IsPrefix : List ℕ → List ℕ × Outcome (Unit {0}) → Type 0
IsPrefix body r = (left : List ℕ) × (body ≡ r.0 ++ left) × (is_success r.1 ≡ true → left ≡ [])

after_write-IsPrefix :
    (count : ℤ) (has_error : Bool) (body : List ℕ) (rest : List ℕ × Outcome (Unit {0}))
    → IsPrefix (drop (pos_part count) body) rest
    → IsPrefix body (after_write count has_error body rest)
unfolding after_write
after_write-IsPrefix (negsuc n) has_error body rest p = (body, refl, λ h. absurd (ground arith))
after_write-IsPrefix (pos n) has_error body rest (left, whole, all) =
    elim (Bool-cases (ltb (length body) n)) [
      | inl e ↦ rw (after_write, e) (body, refl, λ h. absurd (ground arith))
      | inr e ↦ elim (Bool-cases has_error) [
        | inl e1 ↦
            rw (after_write, e, e1)
              (drop n body, sym (take-drop n body), λ h. absurd (ground arith))
        | inr e1 ↦ elim (Bool-cases (n == 0)) [
          | inl e2 ↦ rw (after_write, e, e1, e2) (body, refl, λ h. absurd (ground arith))
          | inr e2 ↦
              rw (after_write, e, e1, e2)
                (
                  left,
                  sym (take-drop n body)
                      ∙ ap (λ ys. take n body ++ ys) whole
                      ∙ sym (append_assoc (take n body) rest.0 left),
                  all,
                )
        ]
      ]
    ]

-- However the destination splits and fails the writes, the bytes that it has taken are a first part
-- of the frame, and after a success they are the whole of it.
pub write_full-IsPrefix :
    (replies : List Reply) (body : List ℕ) → IsPrefix body (write_full replies body)
unfolding write_full
write_full-IsPrefix [] [] = ([], refl, λ h. refl)
write_full-IsPrefix (r ∷ rs) [] = ([], refl, λ h. refl)
write_full-IsPrefix [] (b ∷ body) = (b ∷ body, refl, λ h. absurd (ground arith))
write_full-IsPrefix (r ∷ rs) (b ∷ body) =
    after_write-IsPrefix r.count r.has_error (b ∷ body)
      (write_full rs (drop (pos_part r.count) (b ∷ body)))
      (write_full-IsPrefix rs (drop (pos_part r.count) (b ∷ body)))
