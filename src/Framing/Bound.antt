-- ===== src/Framing/Bound.antt =====
-- How many bytes the decoder keeps between chunks.
use surgical_dev_ops.Base.{
  ◌≡◌, ℕ, zero, suc, ◌+◌, ◌≤◌, ◌<◌, false, List, [], ◌∷◌, ◌++◌, Option, none, some, ltb, ◌==◌,
  length, take, drop, arith, Bool-cases, inl, inr,
}
use surgical_dev_ops.Framing.{
  Counters, State, Chunk, buffer, no_buffer, Round, wait, stop, go, dispatch, decode_body,
  with_length, round, drain, proceed, push, read_length,
}
use surgical_dev_ops.Framing.Rounds.{round-Shorter, Shorter}

-- Where a round waits, a bound.
abbrev WaitsBelow {ℓ} : {A : Type ℓ} → ℕ → ℕ → Round A → Type 0
WaitsBelow n bound wait = n < bound
WaitsBelow n bound _ = Unit {0}

-- A decoder that is still open keeps fewer bytes than a bound.
abbrev pub KeepsBelow : ℕ → State → Type 0
KeepsBelow bound s = s.closed ≡ false → length s.pending < bound

module _ {ℓ} {A : Type ℓ} (decode : List ℕ → Option A) (now : ℕ → Option ℕ)
    (max_frame_bytes : ℕ) where
  dispatch-waits :
      (c : Counters) (m : A) (rest : List ℕ) (time : Option ℕ) (n bound : ℕ)
      → WaitsBelow n bound (dispatch decode now max_frame_bytes c m rest time)
  unfolding dispatch
  dispatch-waits c m rest none n bound = tt
  dispatch-waits c m rest (some time) n bound = tt

  decode_body-waits :
      (c : Counters) (o : Option A) (rest : List ℕ) (n bound : ℕ)
      → WaitsBelow n bound (decode_body decode now max_frame_bytes c o rest)
  unfolding decode_body
  decode_body-waits c none rest n bound = tt
  decode_body-waits c (some m) rest n bound = dispatch-waits c m rest _ n bound

  with_length-waits :
      (c : Counters) (k : ℕ) (rest : List ℕ)
      → WaitsBelow
          (suc (suc (suc (suc (length rest)))))
          (4 + max_frame_bytes)
          (with_length decode now max_frame_bytes c k rest)
  unfolding with_length
  with_length-waits c k rest = elim (Bool-cases (k == 0)) [
    | inl e ↦ rw e tt
    | inr e ↦ elim (Bool-cases (ltb max_frame_bytes k)) [
      | inl f ↦ rw (e, f) tt
      | inr f ↦ elim (Bool-cases (ltb (length rest) k)) [
        | inl g ↦ rw (e, f, g) (ground (arith, f, g))
        | inr g ↦
            rw (e, f, g)
              (decode_body-waits c (decode (take k rest)) (drop k rest)
                (suc (suc (suc (suc (length rest))))) (4 + max_frame_bytes))
      ]
    ]
  ]

  round-waits :
      (c : Counters) (p : List ℕ)
      → WaitsBelow (length p) (4 + max_frame_bytes) (round decode now max_frame_bytes c p)
  unfolding round
  round-waits c [] = omega arith
  round-waits c (h0 ∷ []) = omega arith
  round-waits c (h0 ∷ h1 ∷ []) = omega arith
  round-waits c (h0 ∷ h1 ∷ h2 ∷ []) = omega arith
  round-waits c (h0 ∷ h1 ∷ h2 ∷ h3 ∷ rest) = with_length-waits c (read_length h0 h1 h2 h3) rest

  proceed-below :
      (n bound : ℕ) (c : Counters) (p : List ℕ) (r : Round A)
      → WaitsBelow (length p) bound r
      → Shorter r n
      → ((d : Counters) (rest : List ℕ)
          → length rest ≤ n
          → KeepsBelow bound (drain decode now max_frame_bytes n d rest).0)
      → KeepsBelow bound (proceed c p (λ d rest. drain decode now max_frame_bytes n d rest) r).0
  unfolding proceed
  proceed-below n bound c p wait w s next = λ still_open. w
  proceed-below n bound c p (stop d code) w s next = λ still_open. cc
  proceed-below n bound c p (go d events rest) w s next = next d rest s

  drain-below :
      (n : ℕ) (c : Counters) (p : List ℕ)
      → length p ≤ n
      → KeepsBelow (4 + max_frame_bytes) (drain decode now max_frame_bytes n c p).0
  unfolding drain
  drain-below zero c p h = λ still_open. omega (arith, h)
  drain-below (suc n) c p h =
      proceed-below n (4 + max_frame_bytes) c p (round decode now max_frame_bytes c p)
        (round-waits c p) (round-Shorter decode now max_frame_bytes c p n h)
        (λ d rest k. drain-below n d rest k)

  -- After any chunk, a decoder that keeps less than a header and a body of the maximum size keeps
  -- less than that again, or is closed.
  pub push-KeepsBelow :
      (s : State) (chunk : Chunk)
      → KeepsBelow (4 + max_frame_bytes) s
      → KeepsBelow (4 + max_frame_bytes) (push decode now max_frame_bytes s chunk).0
  unfolding push
  push-KeepsBelow s (buffer bytes) h = elim (Bool-cases s.closed) [
    | inl e ↦ rw e (λ still_open. cc)
    | inr e ↦
        rw e
          (drain-below (length (s.pending ++ bytes)) s.counters (s.pending ++ bytes) (omega arith))
  ]
  push-KeepsBelow s no_buffer h = elim (Bool-cases s.closed) [
    | inl e ↦ rw e (λ still_open. cc)
    | inr e ↦ rw e (λ still_open. cc)
  ]
