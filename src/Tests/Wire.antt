-- ===== src/Tests/Wire.antt =====
-- Frames on the wire: two messages, cut in the middle of a header and of a body.
use surgical_dev_ops.Base.Outcome.{ok, chains}
use surgical_dev_ops.Base.{◌≡◌, refl, ℕ, ◌+◌, List, [], ◌∷◌, ◌++◌, Option, none, some, arith}
use surgical_dev_ops.Framing.{Counters, is_open, initial, buffer, encode_frame, write_length, push}
use surgical_dev_ops.Framing.Chunks.{push-append}
use surgical_dev_ops.Framing.Frames.{Sent, Ticks, Received, push_all, push_all-frames}
use surgical_dev_ops.Framing.Bound.{KeepsBelow, push-KeepsBelow}

-- A body is read as what follows its first byte.
abbrev decode : List ℕ → Option (List ℕ)
decode [] = none
decode (c ∷ body) = some body

abbrev now : ℕ → Option ℕ
now i = some i

ticks : Ticks now
ticks = record { reading = λ i. i; is_integer = λ i. refl; forward = λ i. omega arith }

abbrev limit : ℕ
limit = 65536

encoded : encode_frame limit (123 ∷ 125 ∷ []) ≡ ok (0 ∷ 0 ∷ 0 ∷ 2 ∷ 123 ∷ 125 ∷ [])
unfolding encode_frame write_length chains
encoded = refl

-- The message `{}`.
abbrev one : Sent (List ℕ) decode limit
one = record {
  body = 123 ∷ 125 ∷ [];
  frame = 0 ∷ 0 ∷ 0 ∷ 2 ∷ 123 ∷ 125 ∷ [];
  message = 125 ∷ [];
  encoded = encoded;
  decoded = refl;
}

abbrev start : Counters
start = record { frames_decoded = 0; decode_nanoseconds = 0; readings = 0 }

push_all-frames_example : Received start ((125 ∷ []) ∷ (125 ∷ []) ∷ []) (
    push_all decode now limit
      (is_open start [])
      (0 ∷ 0 ∷ [])
      ((0 ∷ 2 ∷ 123 ∷ []) ∷ (125 ∷ 0 ∷ 0 ∷ 0 ∷ 2 ∷ 123 ∷ 125 ∷ []) ∷ []))
push_all-frames_example =
    push_all-frames decode now limit start (one ∷ one ∷ []) (0 ∷ 0 ∷ [])
      ((0 ∷ 2 ∷ 123 ∷ []) ∷ (125 ∷ 0 ∷ 0 ∷ 0 ∷ 2 ∷ 123 ∷ 125 ∷ []) ∷ []) ticks (omega arith) refl

push-append_example : push decode now limit initial (buffer (0 ∷ 0 ∷ 0 ∷ 2 ∷ 123 ∷ 125 ∷ [])) ≡ (
    let r = push decode now limit initial (buffer (0 ∷ 0 ∷ [])) in
    let q = push decode now limit r.0 (buffer (0 ∷ 2 ∷ 123 ∷ 125 ∷ [])) in (q.0, r.1 ++ q.1))
push-append_example = push-append decode now limit initial (0 ∷ 0 ∷ []) (0 ∷ 2 ∷ 123 ∷ 125 ∷ [])

push-KeepsBelow_example :
    KeepsBelow (4 + limit) (push decode now limit initial (buffer (0 ∷ 0 ∷ []))).0
push-KeepsBelow_example =
    push-KeepsBelow decode now limit initial (buffer (0 ∷ 0 ∷ [])) (λ still_open. omega arith)
