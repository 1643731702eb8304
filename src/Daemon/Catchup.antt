-- ===== src/Daemon/Catchup.antt =====
-- internal/daemon/replay.go: a replay sends what the client missed, without a gap.
use agent_room.Prelude.{
  ◌<◌, ℕ, zero, suc, ◌+◌, ◌-◌, ◌≤◌, ◌≡◌, refl, sym, ap, ◌∙◌, inl, inr, true, false, ◌||◌, List, [],
  ◌∷◌, ◌++◌, String, ◌==◌, ltb, leb, length, take, drop, map, arith, Bool-cases,
}
use agent_room.Result.{ok}
use agent_room.Store.Tables.{EventRow, Database}
use agent_room.Store.Queries.{latest_seq}
use agent_room.Store.Wellformed.Log.{count_to}
use agent_room.Store.Invariant.{IsWellFormed}
use agent_room.Store.History.Log.{
  page, end_of, events-page, events_total, length-count_to, drop-append_le, drop-all,
}
use agent_room.Daemon.Replay.{World, reached, send_batch, replay_from, replay}

-- a + 1, a + 2, …, a + k.
abbrev pub span : ℕ → ℕ → List ℕ
span a zero = []
span a (suc k) = suc a ∷ span (suc a) k

span-append : (a k m : ℕ) → span a (k + m) ≡ span a k ++ span (a + k) m
span-append a zero m =
    let e : 0 + m ≡ m = omega arith in let f : a + 0 ≡ a = omega arith in rw (e, f) refl
span-append a (suc k) m =
    let e : suc k + m ≡ suc (k + m) = omega arith in
    let f : a + suc k ≡ suc a + k = omega arith in
    rw (e, f) (ap (λ xs. suc a ∷ xs) (span-append (suc a) k m))

drop-count_to : (a k : ℕ) → drop a (count_to (a + k)) ≡ span a k
drop-count_to a zero =
    let e : a + 0 ≡ a = omega arith in
    rw e (drop-all a (count_to a) (omega (arith, length-count_to a)))
drop-count_to a (suc k) =
    let e : a + suc k ≡ suc (a + k) = omega arith in
    let f : suc k ≡ k + 1 = omega arith in
    ap (λ n. drop a (count_to n)) e
    ∙ drop-append_le a (count_to (a + k)) (suc (a + k) ∷ [])
        (omega (arith, length-count_to (a + k)))
    ∙ ap (λ xs. xs ++ suc (a + k) ∷ []) (drop-count_to a k)
    ∙ sym (span-append a k 1)
    ∙ sym (ap (span a) f)

take-span_le : (m a k : ℕ) → m ≤ k → take m (span a k) ≡ span a m
take-span_le zero a k h = refl
take-span_le (suc m) a zero h = absurd (omega arith)
take-span_le (suc m) a (suc k) h = ap (λ xs. suc a ∷ xs) (take-span_le m (suc a) k (omega arith))

take-span_ge : (m a k : ℕ) → k ≤ m → take m (span a k) ≡ span a k
take-span_ge zero a zero h = refl
take-span_ge zero a (suc k) h = absurd (omega arith)
take-span_ge (suc m) a zero h = refl
take-span_ge (suc m) a (suc k) h = ap (λ xs. suc a ∷ xs) (take-span_ge m (suc a) k (omega arith))

seqs_append :
    (xs ys : List EventRow)
    → map (λ e. e.seq) (xs ++ ys) ≡ map (λ e. e.seq) xs ++ map (λ e. e.seq) ys
seqs_append [] ys = refl
seqs_append (x ∷ xs) ys = ap (λ zs. x.seq ∷ zs) (seqs_append xs ys)

-- The page that a turn of the loop asks for.
batch :
    (a d n : ℕ)
    → suc a ≤ a + d
    → a + d ≤ n
    → (k : ℕ) × (1 ≤ k) × (k ≤ d) × (page a (a + d) 128 n ≡ span a k)
batch a d n h le =
    let e : end_of (a + d) n ≡ a + d = ground arith in
    elim (Bool-cases (leb d 128)) [
      | inl short ↦ (
        d,
        omega arith,
        omega arith,
        ap (λ m. take 128 (drop a (count_to m))) e
            ∙ ap (take 128) (drop-count_to a d)
            ∙ take-span_ge 128 a d (ground arith),
      )
      | inr long ↦ (
        128,
        omega arith,
        ground arith,
        ap (λ m. take 128 (drop a (count_to m))) e
            ∙ ap (take 128) (drop-count_to a d)
            ∙ take-span_le 128 a d (ground arith),
      )
    ]

module _ (w : World) (takes_all : (e : EventRow) → w.takes e ≡ true) where
  -- A batch of consecutive events is sent as a whole.
  send_batch-span :
      (es : List EventRow) (a k high : ℕ)
      → map (λ e. e.seq) es ≡ span a k
      → a + k ≤ high
      → send_batch w a high es ≡ record { sent = es; outcome = reached (a + k) }
  unfolding send_batch
  send_batch-span [] a zero high h le = let e : a + 0 ≡ a = omega arith in rw e refl
  send_batch-span [] a (suc k) high h le = absurd (ground arith)
  send_batch-span (e ∷ es) a zero high h le = absurd (ground arith)
  send_batch-span (e ∷ es) a (suc k) high h le =
      let at : e.seq ≡ suc a = ground arith in
      let more : map (λ (x : EventRow). x.seq) es ≡ span (suc a) k = ground arith in
      let rest = send_batch-span es (suc a) k high more (omega arith) in
      let here : (leb e.seq a || ltb high e.seq) ≡ false = ground arith in
      let later = ap (λ n. send_batch w n high es) at ∙ rest in
      let same : a + suc k ≡ suc a + k = omega arith in
      rw (send_batch, here, takes_all e, later, same) refl

  length-span :
      (es : List EventRow) (a k : ℕ)
      → map (λ e. e.seq) es ≡ span a k
      → 1 ≤ k
      → (length es == 0) ≡ false
  length-span [] a zero h le = absurd (omega arith)
  length-span [] a (suc k) h le = absurd (ground arith)
  length-span (e ∷ es) a k h le = ground arith

  module _ (rid : String) (high : ℕ) (valid : (n : ℕ) → IsWellFormed (w.database n))
      (there : (n : ℕ) → (m : ℕ) × (latest_seq rid (w.database n) ≡ ok m) × (high ≤ m))
      (stays_open : (n : ℕ) → w.closed n ≡ false) (small : high < 9223372036854775808) where
    replay_from-span :
        (fuel n a d : ℕ)
        → a + d ≡ high
        → d ≤ fuel
        → ((replay_from w fuel n rid a high).outcome ≡ reached high)
          × (map (λ e. e.seq) (replay_from w fuel n rid a high).sent ≡ span a d)
    unfolding replay_from
    replay_from-span zero n a zero sum le =
        let over : ltb a high ≡ false = ground arith in
        let same : a ≡ high = omega arith in
        (rw (replay_from, over) (ap reached same), rw (replay_from, over) refl)
    replay_from-span (suc fuel) n a zero sum le =
        let over : ltb a high ≡ false = ground arith in
        let same : a ≡ high = omega arith in
        (rw (replay_from, over) (ap reached same), rw (replay_from, over) refl)
    replay_from-span zero n a (suc d) sum le = absurd (omega arith)
    replay_from-span (suc fuel) n a (suc d) sum le =
        let (m, last, low) = there n in
        let (es, read) =
          events_total rid a high 128 (w.database n) last (omega arith) (inr (omega arith))
            (omega arith) (omega arith) in
        let (m', last', seqs) = events-page rid a high 128 (w.database n) (valid n) read in
        let same : m' ≡ m = ground (arith, last, last') in
        let (k, some_k, few, shape) = batch a (suc d) m (omega arith) (omega arith) in
        let seqs' : map (λ (e : EventRow). e.seq) es ≡ span a k =
          seqs ∙ ap (page a high 128) same ∙ ap (λ h. page a h 128 m) (sym sum) ∙ shape in
        let more : ltb a high ≡ true = ground arith in
        let full = send_batch-span es a k high seqs' (omega arith) in
        let (ends, rest) =
          replay_from-span fuel (suc n) (a + k) (suc d - k) (omega arith) (omega arith) in
        let whole : k + (suc d - k) ≡ suc d = omega arith in
        (
          rw (replay_from, more, stays_open n, read, length-span es a k seqs' some_k, full) ends,
          rw (replay_from, more, stays_open n, read, length-span es a k seqs' some_k, full)
              (seqs_append es (replay_from w fuel (suc n) rid (a + k) high).sent
                ∙ ap
                    (λ xs.
                      xs
                      ++ map (λ (e : EventRow). e.seq)
                          (replay_from w fuel (suc n) rid (a + k) high).sent)
                    seqs'
                ∙ ap (λ ys. span a k ++ ys) rest
                ∙ sym (span-append a k (suc d - k))
                ∙ ap (span a) whole),
        )

    -- If the log of a well-formed database reaches the latest number `high`, below 2^63, at every turn, while the
    -- subscription is open and the connection takes every event, a replay for a client that has seen
    -- the events up to `last` ends well, and sends the events numbered last + 1, …, high: each once,
    -- in this order, with none left out.
    pub replay-span :
        (last : ℕ) (start : Database)
        → latest_seq rid start ≡ ok high
        → last ≤ high
        → ((replay w rid last start).outcome ≡ reached high)
          × (map (λ e. e.seq) (replay w rid last start).sent ≡ span last (high - last))
    unfolding replay
    replay-span last start h le =
        let valid_cursor : ltb high last ≡ false = ground arith in
        let (ends, all) =
          replay_from-span (high - last) 0 last (high - last) (omega arith) (omega arith) in
        (rw (replay, h, valid_cursor) ends, rw (replay, h, valid_cursor) all)
