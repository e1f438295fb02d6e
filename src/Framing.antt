-- ===== src/Framing.antt =====
-- accelerator/adapters/local-ipc-framing.js: frames of a length and a body, and the decoder that takes
-- them apart again from chunks. Bytes are numbers below 256. `decode` is `JSON.parse` after the UTF-8
-- decoder, nothing where either throws; `now` is the sequence of readings of the monotonic clock,
-- nothing where a reading is no integer. The callbacks are events, in the order of the calls; they do
-- not call the decoder themselves.
pub mod Rounds
pub mod Chunks
pub mod Frames
pub mod Bound
pub mod Serialize
use surgical_dev_ops.Base.Outcome.{Outcome, ok, throw, require, reject, ◌>>=◌, ◌>>◌}
use surgical_dev_ops.Base.{
  ℕ, zero, suc, ◌+◌, ◌-◌, ◌*◌, ◌/◌, ◌%◌, String, Bool, true, false, List, [], ◌∷◌, ◌++◌, ◌&&◌, ◌||◌,
  Option, none, some, ltb, leb, ◌==◌, length, take, drop, if◌then◌else◌,
}
use surgical_dev_ops.Json.{Value, undefined, number}

-- The value of an option, or the default.
unfoldable pub require_max_frame_bytes : Value → Outcome ℕ
require_max_frame_bytes undefined = ok 65536
require_max_frame_bytes (number n) = do
  require (leb 1 n && leb n 16777216) "Local IPC maximum frame size is invalid"
  ok n
require_max_frame_bytes _ = throw "Local IPC maximum frame size is invalid"

-- `writeUInt32BE` and `readUInt32BE`.
unfoldable pub write_length : ℕ → List ℕ
write_length n = n / 16777216 % 256 ∷ n / 65536 % 256 ∷ n / 256 % 256 ∷ n % 256 ∷ []

abbrev pub read_length : ℕ → ℕ → ℕ → ℕ → ℕ
read_length a b c d = a * 16777216 + b * 65536 + c * 256 + d

-- `encodeFrame` of a message whose serialisation has these bytes.
unfoldable pub encode_frame : ℕ → List ℕ → Outcome (List ℕ)
encode_frame max_frame_bytes body = do
  reject (length body == 0) "ZERO_LENGTH_FRAME"
  reject (ltb max_frame_bytes (length body)) "FRAME_TOO_LARGE"
  ok (write_length (length body) ++ body)

-- The calls that the decoder makes.
pub data Event {ℓ} (A : Type ℓ) : Type ℓ where
  on_decode : ℕ → Event A
  on_message : A → Event A
  on_error : String → Event A

-- The metrics, and how many readings of the clock were taken.
pub record Counters : Type 0 where
  pub frames_decoded : ℕ
  pub decode_nanoseconds : ℕ
  pub readings : ℕ

pub record State : Type 0 where
  pub pending : List ℕ
  pub closed : Bool
  pub counters : Counters

abbrev pub is_open : Counters → List ℕ → State
is_open c p = record { pending = p; closed = false; counters = c }

-- The state after `fail`.
abbrev pub is_closed : Counters → State
is_closed c = record { pending = []; closed = true; counters = c }

abbrev pub initial : State
initial = is_open (record { frames_decoded = 0; decode_nanoseconds = 0; readings = 0 }) []

-- A chunk is a buffer or something else.
pub data Chunk : Type 0 where
  buffer : List ℕ → Chunk
  no_buffer : Chunk

-- One round of the loop: it waits for bytes, stops with a code, or goes on with what is left.
pub data Round {ℓ} (A : Type ℓ) : Type ℓ where
  wait : Round A
  stop : Counters → String → Round A
  go : Counters → List (Event A) → List ℕ → Round A

-- `finished - started`, if both are integers in order.
unfoldable pub elapsed : Option ℕ → Option ℕ → Option ℕ
elapsed (some started) (some finished) =
    if ltb finished started then none else some (finished - started)
elapsed _ _ = none

abbrev pub read_once : Counters → Counters
read_once c = record c { readings = c.readings + 1 }

-- What a round leads to, with the rounds that come next.
unfoldable pub proceed {ℓ} :
    {A : Type ℓ}
    → Counters
    → List ℕ
    → (Counters → List ℕ → State × List (Event A))
    → Round A
    → State × List (Event A)
proceed c p next wait = (is_open c p, [])
proceed c p next (stop d code) = (is_closed d, on_error code ∷ [])
proceed c p next (go d events rest) = let r = next d rest in (r.0, events ++ r.1)

module _ {ℓ} {A : Type ℓ} (decode : List ℕ → Option A) (now : ℕ → Option ℕ)
    (max_frame_bytes : ℕ) where
  -- A decoded message, with the time that it took.
  unfoldable pub dispatch : Counters → A → List ℕ → Option ℕ → Round A
  dispatch c message rest none =
      stop (record c { readings = c.readings + 2 }) "INVALID_MONOTONIC_CLOCK"
  dispatch c message rest (some time) =
      go
        (record {
          frames_decoded = c.frames_decoded + 1;
          decode_nanoseconds = c.decode_nanoseconds + time;
          readings = c.readings + 2;
        })
        (on_decode time ∷ on_message message ∷ []) rest

  unfoldable pub decode_body : Counters → Option A → List ℕ → Round A
  decode_body c none rest = stop (read_once c) "INVALID_JSON_FRAME"
  decode_body c (some message) rest =
      dispatch c message rest (elapsed (now c.readings) (now (c.readings + 1)))

  -- The round after the header was read.
  unfoldable pub with_length : Counters → ℕ → List ℕ → Round A
  with_length c n rest =
      if n == 0
      then stop c "ZERO_LENGTH_FRAME"
      else if ltb max_frame_bytes n
      then stop c "FRAME_TOO_LARGE"
      else if ltb (length rest) n
      then wait
      else decode_body c (decode (take n rest)) (drop n rest)

  unfoldable pub round : Counters → List ℕ → Round A
  round c (h0 ∷ h1 ∷ h2 ∷ h3 ∷ rest) = with_length c (read_length h0 h1 h2 h3) rest
  round c _ = wait

  -- The loop. Each round that goes on leaves fewer bytes, so that their number is fuel enough.
  unfoldable pub drain : ℕ → Counters → List ℕ → State × List (Event A)
  drain zero c p = (is_open c p, [])
  drain (suc n) c p = proceed c p (λ d rest. drain n d rest) (round c p)

  unfoldable pub push : State → Chunk → State × List (Event A)
  push s (buffer bytes) =
      if s.closed
      then (s, [])
      else drain (length (s.pending ++ bytes)) s.counters (s.pending ++ bytes)
  push s no_buffer =
      if s.closed then (s, []) else (is_closed s.counters, on_error "INVALID_FRAME_CHUNK" ∷ [])

-- `end`
unfoldable pub finish {ℓ} : {A : Type ℓ} → State → State × List (Event A)
finish s =
    if s.closed
    then (s, [])
    else if length s.pending == 0
    then (record s { closed = true }, [])
    else (is_closed s.counters, on_error "TRUNCATED_FRAME" ∷ [])

-- `inspectMetrics`: frames, nanoseconds and pending bytes.
abbrev pub inspect_metrics : State → ℕ × ℕ × ℕ
inspect_metrics s = (s.counters.frames_decoded, s.counters.decode_nanoseconds, length s.pending)
