-- ===== src/Console/History.antt =====
-- The log of capsule-cli/src/bin/capsule-runtime/console.rs against the history of all that was
-- written to it.
use nova_enclave_capsule.Prelude.{
  ℕ, zero, suc, ◌+◌, ◌-◌, ◌≤◌, true, false, some, List, [], ◌∷◌, ◌++◌, ◌≡◌, refl, sym, ap, ◌∙◌,
  arith, inl, inr, ltb, length, take, drop, length-append, length-drop, Bool-cases, if◌then◌else◌,
  ◌==◌, nat_eq,
}
use nova_enclave_capsule.Console.{
  Bytes, CircBuf, ByteLog, app_log_capacity, copy_from, new_log, make_room, append, copied, read,
}

abbrev pub concat : List Bytes → Bytes
concat [] = []
concat (data_slice ∷ rest) = data_slice ++ concat rest

-- What circbuf documents of a buffer that holds at most `cap` bytes.
pub record IsCircBuf (circ : CircBuf) : Type 0 where
  pub cap : circ.Buffer → ℕ
  pub contents : circ.Buffer → Bytes
  pub with_capacity-some :
      (n : ℕ)
      → (b : circ.Buffer) × (circ.with_capacity n ≡ some b) × (contents b ≡ []) × (n ≤ cap b)
  pub avail-cap : (b : circ.Buffer) → circ.avail b + length (contents b) ≡ cap b
  pub advance_read-drop :
      (b : circ.Buffer) (n : ℕ)
      → n ≤ length (contents b)
      → (b' : circ.Buffer) × (circ.advance_read b n ≡ some b')
        × (contents b' ≡ drop n (contents b))
        × (cap b' ≡ cap b)
  pub write-append :
      (b : circ.Buffer) (bytes : Bytes)
      → length bytes ≤ circ.avail b
      → (b' : circ.Buffer) × (circ.write b bytes ≡ some (b', length bytes))
        × (contents b' ≡ contents b ++ bytes)
        × (cap b' ≡ cap b)
  pub get_bytes_upto_size-take :
      (b : circ.Buffer) (n : ℕ) → concat (circ.get_bytes_upto_size b n) ≡ take n (contents b)

drop-append_le : (n : ℕ) (xs ys : Bytes) → n ≤ length xs → drop n (xs ++ ys) ≡ drop n xs ++ ys
drop-append_le zero xs ys h = refl
drop-append_le (suc n) [] ys h = absurd (omega arith)
drop-append_le (suc n) (x ∷ xs) ys h = drop-append_le n xs ys (omega (arith, h))

drop-append_ge :
    (n : ℕ) (xs ys : Bytes) → length xs ≤ n → drop n (xs ++ ys) ≡ drop (n - length xs) ys
drop-append_ge n [] ys h = let e : n - 0 ≡ n = omega arith in rw e refl
drop-append_ge zero (x ∷ xs) ys h = absurd (omega (arith, h))
drop-append_ge (suc n) (x ∷ xs) ys h =
    let e : suc n - suc (length xs) ≡ n - length xs = omega arith in
    rw e (drop-append_ge n xs ys (omega (arith, h)))

drop-nil : (n : ℕ) → drop {A = ℕ} n [] ≡ []
drop-nil zero = refl
drop-nil (suc n) = refl

take-nil : (n : ℕ) → take {A = ℕ} n [] ≡ []
take-nil zero = refl
take-nil (suc n) = refl

drop-drop : (m n : ℕ) (xs : Bytes) → drop m (drop n xs) ≡ drop (n + m) xs
drop-drop m zero xs = let e : 0 + m ≡ m = omega arith in rw e refl
drop-drop m (suc n) [] = drop-nil m ∙ sym (drop-nil (suc n + m))
drop-drop m (suc n) (x ∷ xs) =
    let e : suc n + m ≡ suc (n + m) = omega arith in rw e (drop-drop m n xs)

drop-take : (m n : ℕ) (xs : Bytes) → drop m (take (n + m) xs) ≡ take n (drop m xs)
drop-take zero n xs = let e : n + 0 ≡ n = omega arith in rw e refl
drop-take (suc m) n [] = ap (drop (suc m)) (take-nil (n + suc m)) ∙ sym (take-nil n)
drop-take (suc m) n (x ∷ xs) =
    let e : n + suc m ≡ suc (n + m) = omega arith in rw e (drop-take m n xs)

copy_from-drop :
    (offset : ℕ) (slices : List Bytes) → copy_from offset slices ≡ drop offset (concat slices)
unfolding copy_from
copy_from-drop zero [] = refl
copy_from-drop (suc offset) [] = refl
copy_from-drop offset (data_slice ∷ rest) = elim (Bool-cases (ltb offset (length data_slice))) [
  | inl inside ↦
      rw (copy_from, inside, copy_from-drop 0 rest)
        (sym (drop-append_le offset data_slice (concat rest) (ground arith)))
  | inr beyond ↦
      rw (copy_from, beyond, copy_from-drop (offset - length data_slice) rest)
        (sym (drop-append_ge offset data_slice (concat rest) (ground arith)))
]

module _ (circ : CircBuf) (law : IsCircBuf circ) where
  -- The log holds the end of the history, and its head counts what it has dropped of the start.
  pub record Holds (log : ByteLog circ) (history : Bytes) : Type 0 where
    pub within : log.head ≤ length history
    pub kept : law.contents log.buffer ≡ drop log.head history

  -- Where a reader at a position gets its next byte: bytes that are dropped are skipped.
  abbrev pub start : ByteLog circ → ℕ → ℕ
  start log pos = if ltb pos log.head then log.head else pos

  copied-take :
      (log : ByteLog circ) (offset size : ℕ) {history : Bytes}
      → Holds log history
      → copied circ log offset size ≡ take size (drop (log.head + offset) history)
  unfolding copied
  copied-take log offset size {history} h =
      copy_from-drop offset (circ.get_bytes_upto_size log.buffer (size + offset))
      ∙ (ap (drop offset) (law.get_bytes_upto_size-take log.buffer (size + offset))
          ∙ (drop-take offset size (law.contents log.buffer)
              ∙ (ap (λ c. take size (drop offset c)) h.kept
                  ∙ ap (take size) (drop-drop offset log.head history))))

  -- A reader gets the next bytes of the history from its position on, as many as its buffer takes
  -- and the history has, and its position moves behind them. A reader that is too slow goes on at
  -- the oldest byte that is kept.
  pub read_lem :
      (log : ByteLog circ) (pos size : ℕ) {history : Bytes}
      → Holds log history
      → read circ log pos size ≡ (
        start log pos + length (take size (drop (start log pos) history)),
        take size (drop (start log pos) history),
      )
  unfolding read
  read_lem log pos size {history} h = elim (Bool-cases (ltb pos log.head)) [
    | inl slow ↦
        let e : log.head + 0 ≡ log.head = omega arith in
        let c = copied-take log 0 size h in rw (read, slow, c, e) refl
    | inr there ↦
        let e : log.head + (pos - log.head) ≡ pos = ground arith in
        let c = copied-take log (pos - log.head) size h in rw (read, there, c, e) refl
  ]

  make_room_head :
      (log : ByteLog circ) (size : ℕ)
      → (make_room circ log size).0.head ≡ log.head + (make_room circ log size).1
  unfolding make_room
  make_room_head log size = ground arith

  make_room_lem :
      (log : ByteLog circ) (size : ℕ) {history : Bytes}
      → Holds log history
      → size ≤ law.cap log.buffer
      → Holds (make_room circ log size).0 history
        × (size ≤ circ.avail (make_room circ log size).0.buffer)
        × (law.cap (make_room circ log size).0.buffer ≡ law.cap log.buffer)
  unfolding make_room
  make_room_lem log size {history} h fits = elim (Bool-cases (ltb (circ.avail log.buffer) size)) [
    | inl short ↦
        let n = size - circ.avail log.buffer in
        let room = law.avail-cap log.buffer in
        let (b, advanced, left, same_cap) =
          law.advance_read-drop log.buffer n (ground (arith, room, fits)) in
        let kept_length = ap length h.kept ∙ length-drop log.head history in
        let left_length = ap length left ∙ length-drop n (law.contents log.buffer) in
        let new_room = law.avail-cap b in
        let tests : (n + circ.avail log.buffer ≡ size) × (n ≤ length (law.contents log.buffer)) =
          ground (arith, room, fits) in
        rw (make_room, short, advanced)
          (
            record {
              within = omega (arith, kept_length, tests, h.within);
              kept = left ∙ (ap (drop n) h.kept ∙ drop-drop n log.head history);
            },
            omega (arith, room, new_room, left_length, same_cap, tests, fits),
            same_cap,
          )
    | inr enough ↦ rw (make_room, enough) (h, ground arith, refl)
  ]

  -- Bytes that fit the buffer are appended: no assertion fails, the log then holds the history
  -- with these bytes at its end, the number that is returned is how many left it at the head, and
  -- the capacity stays.
  pub append_lem :
      (log : ByteLog circ) (bytes : Bytes) {history : Bytes}
      → Holds log history
      → length bytes ≤ law.cap log.buffer
      → (log' : ByteLog circ) × (trim_cnt : ℕ) × (append circ log bytes ≡ some (log', trim_cnt))
        × Holds log' (history ++ bytes)
        × (log'.head ≡ log.head + trim_cnt)
        × (law.cap log'.buffer ≡ law.cap log.buffer)
  unfolding append
  append_lem log bytes {history} h fits =
      let roomy = (make_room circ log (length bytes)).0 in
      let trim_cnt = (make_room circ log (length bytes)).1 in
      let (held, room, same_cap) = make_room_lem log (length bytes) h fits in
      let (b, written, contents, cap) = law.write-append roomy.buffer bytes room in
      let enough : ltb (circ.avail roomy.buffer) (length bytes) ≡ false = ground (arith, room) in
      let whole : (length bytes == length bytes) ≡ true = ground arith in
      (
        record { buffer = b; head = roomy.head },
        trim_cnt,
        rw (append, enough, written, whole) refl,
        record {
          within = omega (arith, held.within, length-append history bytes);
          kept =
              contents
              ∙ (ap (λ c. c ++ bytes) held.kept
                  ∙ sym (drop-append_le roomy.head history bytes held.within));
        },
        make_room_head log (length bytes),
        cap ∙ same_cap,
      )

  -- A new log holds the empty history, and takes as many bytes as its capacity says.
  pub new_log-Holds :
      (log : ByteLog circ) × (new_log circ ≡ some log)
      × Holds log []
      × (app_log_capacity ≤ law.cap log.buffer)
  unfolding new_log
  new_log-Holds =
      let (b, made, empty, cap) = law.with_capacity-some app_log_capacity in
      (
        record { buffer = b; head = 0 },
        rw (new_log, made) refl,
        record { within = omega arith; kept = empty },
        cap,
      )
