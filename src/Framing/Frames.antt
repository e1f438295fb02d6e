-- ===== src/Framing/Frames.antt =====
-- What the decoder makes of encoded frames, and how many bytes it keeps.
use surgical_dev_ops.Base.Outcome.{ok, reject-ok, ok-injective}
use surgical_dev_ops.Base.{
  ◌≡◌, ◌∙◌, refl, sym, ap, subst, ℕ, ◌+◌, ◌-◌, ◌/◌, ◌%◌, ◌≤◌, ◌<◌, String, false, List, [], ◌∷◌,
  ◌++◌, Option, some, ltb, ◌==◌, length, take, drop, arith, append-nil,
}
use surgical_dev_ops.Framing.{
  Event, Counters, State, is_open, buffer, elapsed, dispatch, decode_body, with_length, round,
  drain, proceed, push, on_error, on_decode, on_message, read_length, write_length, encode_frame,
}
use surgical_dev_ops.Framing.Chunks.{push-append, drain-nil}

-- The header of a body below 2^32 bytes reads back as its length.
read-write :
    (n : ℕ)
    → n < 4294967296
    → read_length (n / 16777216 % 256) (n / 65536 % 256) (n / 256 % 256) (n % 256) ≡ n
read-write n h = omega (arith, h)

-- The messages and the errors among the events.
abbrev pub messages {ℓ} : {A : Type ℓ} → List (Event A) → List A
messages [] = []
messages (on_message m ∷ events) = m ∷ messages events
messages (_ ∷ events) = messages events

abbrev pub errors {ℓ} : {A : Type ℓ} → List (Event A) → List String
errors [] = []
errors (on_error code ∷ events) = code ∷ errors events
errors (_ ∷ events) = errors events

messages-append {ℓ} :
    {A : Type ℓ} (e f : List (Event A)) → messages (e ++ f) ≡ messages e ++ messages f
messages-append [] f = refl
messages-append (on_message m ∷ e) f = ap (λ l. m ∷ l) (messages-append e f)
messages-append (on_decode n ∷ e) f = messages-append e f
messages-append (on_error code ∷ e) f = messages-append e f

abbrev pub concat : List (List ℕ) → List ℕ
concat [] = []
concat (c ∷ cs) = c ++ concat cs

-- What is expected after some frames, from the counters before: the decoder is open with nothing
-- pending, the messages were delivered without an error, and each was counted.
pub record Received {ℓ} {A : Type ℓ} (c : Counters) (sent : List A) (r : State × List (Event A))
    : Type ℓ where
  pub still_open : r.0.closed ≡ false
  pub nothing_left : r.0.pending ≡ []
  pub delivered : messages r.1 ≡ sent
  pub without_error : errors r.1 ≡ []
  pub count : r.0.counters.frames_decoded ≡ c.frames_decoded + length sent

-- A message that was sent: its serialisation, its frame, and that it is read back.
pub record Sent {ℓ} (A : Type ℓ) (decode : List ℕ → Option A) (max_frame_bytes : ℕ) : Type ℓ where
  pub body : List ℕ
  pub frame : List ℕ
  pub message : A
  pub encoded : encode_frame max_frame_bytes body ≡ ok frame
  pub decoded : decode body ≡ some message

-- A clock of which every reading is an integer, and none is before the one that precedes it.
pub record Ticks (now : ℕ → Option ℕ) : Type 0 where
  pub reading : ℕ → ℕ
  pub is_integer : (i : ℕ) → now i ≡ some (reading i)
  pub forward : (i : ℕ) → reading i ≤ reading (i + 1)

take-all {ℓ} : {A : Type ℓ} (xs : List A) → take (length xs) xs ≡ xs
take-all [] = refl
take-all (x ∷ xs) = ap (λ l. x ∷ l) (take-all xs)

drop-all {ℓ} : {A : Type ℓ} (xs : List A) → drop (length xs) xs ≡ []
drop-all [] = refl
drop-all (x ∷ xs) = drop-all xs

module _ {ℓ} {A : Type ℓ} (decode : List ℕ → Option A) (now : ℕ → Option ℕ)
    (max_frame_bytes : ℕ) where
  -- Buffers pushed one after the other, at least one.
  abbrev pub push_all : State → List ℕ → List (List ℕ) → State × List (Event A)
  push_all s c [] = push decode now max_frame_bytes s (buffer c)
  push_all s c (d ∷ cs) =
      let r = push decode now max_frame_bytes s (buffer c) in
      let q = push_all r.0 d cs in (q.0, r.1 ++ q.1)

  pub push_all-concat :
      (s : State) (c : List ℕ) (cs : List (List ℕ))
      → push_all s c cs ≡ push decode now max_frame_bytes s (buffer (c ++ concat cs))
  push_all-concat s c [] = rw (append-nil c) refl
  push_all-concat s c (d ∷ cs) =
      let r = push decode now max_frame_bytes s (buffer c) in
      ap (λ (q : State × List (Event A)). (q.0, r.1 ++ q.1)) (push_all-concat r.0 d cs)
      ∙ sym (push-append decode now max_frame_bytes s c (d ++ concat cs))

  -- The counters after one more frame.
  abbrev counted : Counters → ℕ → Counters
  counted c time = record {
    frames_decoded = c.frames_decoded + 1;
    decode_nanoseconds = c.decode_nanoseconds + time;
    readings = c.readings + 2;
  }

  framed :
      (c : Counters) (body : List ℕ) (m : A) (time : ℕ)
      → (length body == 0) ≡ false
      → ltb max_frame_bytes (length body) ≡ false
      → length body < 4294967296
      → decode body ≡ some m
      → elapsed (now c.readings) (now (c.readings + 1)) ≡ some time
      → push decode now max_frame_bytes (is_open c []) (buffer (write_length (length body) ++ body))
        ≡ (is_open (counted c time) [], on_decode time ∷ on_message m ∷ [])
  unfolding push drain round with_length decode_body dispatch proceed write_length
  framed c body m time filled fits small decoded clock =
      let not_less : ltb (length body) (length body) ≡ false = ground arith in
      rw
        (
          read-write (length body) small,
          filled,
          fits,
          not_less,
          take-all body,
          drop-all body,
          decoded,
          clock,
        )
        refl

  one_frame :
      (c : Counters) (sent : Sent A decode max_frame_bytes)
      → Ticks now
      → max_frame_bytes < 4294967296
      → (time : ℕ) × (push decode now max_frame_bytes (is_open c []) (buffer sent.frame)
          ≡ (is_open (counted c time) [], on_decode time ∷ on_message sent.message ∷ []))
  unfolding encode_frame elapsed
  one_frame c sent ticks small = reject-ok _ _ _ sent.encoded λ filled h.
      reject-ok _ _ _ h λ fits made.
        let time = ticks.reading (c.readings + 1) - ticks.reading c.readings in
        let forward : ltb (ticks.reading (c.readings + 1)) (ticks.reading c.readings) ≡ false =
          ground (arith, ticks.forward c.readings) in
        let clock : elapsed (now c.readings) (now (c.readings + 1)) ≡ some time =
          rw (ticks.is_integer c.readings, ticks.is_integer (c.readings + 1), forward) refl in
        let short : length sent.body < 4294967296 = ground (arith, fits, small) in
        (
          time,
          subst
              (λ frame.
                push decode now max_frame_bytes (is_open c []) (buffer frame)
                ≡ (is_open (counted c time) [], on_decode time ∷ on_message sent.message ∷ []))
              (ok-injective made)
              (framed c sent.body sent.message time filled fits short sent.decoded clock),
        )

  abbrev pub frames : List (Sent A decode max_frame_bytes) → List ℕ
  frames [] = []
  frames (sent ∷ rest) = sent.frame ++ frames rest

  abbrev pub sent_messages : List (Sent A decode max_frame_bytes) → List A
  sent_messages [] = []
  sent_messages (sent ∷ rest) = sent.message ∷ sent_messages rest

  one_more :
      (c : Counters) (time : ℕ) (m : A) (rest : List A) (r : State × List (Event A))
      → Received (counted c time) rest r
      → Received c (m ∷ rest) (r.0, on_decode time ∷ on_message m ∷ r.1)
  one_more c time m rest r h = record {
    still_open = h.still_open;
    nothing_left = h.nothing_left;
    delivered = ap (λ l. m ∷ l) h.delivered;
    without_error = h.without_error;
    count = omega (arith, h.count);
  }

  no_frame :
      (c : Counters) → Received c [] (push decode now max_frame_bytes (is_open c []) (buffer []))
  unfolding push
  no_frame c = rw (drain-nil decode now max_frame_bytes 0 c) (record {
    still_open = refl;
    nothing_left = refl;
    delivered = refl;
    without_error = refl;
    count = omega arith;
  })

  all_frames :
      (c : Counters) (sent : List (Sent A decode max_frame_bytes))
      → Ticks now
      → max_frame_bytes < 4294967296
      → Received c
          (sent_messages sent)
          (push decode now max_frame_bytes (is_open c []) (buffer (frames sent)))
  all_frames c [] ticks small = no_frame c
  all_frames c (first ∷ rest) ticks small =
      let (time, is) = one_frame c first ticks small in
      rw (push-append decode now max_frame_bytes (is_open c []) first.frame (frames rest), is)
        (one_more c time first.message (sent_messages rest)
          (push decode now max_frame_bytes (is_open (counted c time) []) (buffer (frames rest)))
          (all_frames (counted c time) rest ticks small))

  -- However the bytes of encoded frames are cut into buffers, a decoder with nothing pending delivers
  -- exactly the messages that were sent, in their order and without an error, counts them, and is
  -- left open with nothing pending; the clock does not run backward and the maximum fits the header.
  pub push_all-frames :
      (c : Counters) (sent : List (Sent A decode max_frame_bytes)) (chunk : List ℕ)
      (chunks : List (List ℕ))
      → Ticks now
      → max_frame_bytes < 4294967296
      → concat (chunk ∷ chunks) ≡ frames sent
      → Received c (sent_messages sent) (push_all (is_open c []) chunk chunks)
  push_all-frames c sent chunk chunks ticks small same =
      rw (push_all-concat (is_open c []) chunk chunks, same) (all_frames c sent ticks small)
