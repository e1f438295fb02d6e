-- ===== src/Framing/Chunks.antt =====
-- The decoder of accelerator/adapters/local-ipc-framing.js on one sequence of bytes that is cut
-- into chunks in different ways.
use surgical_dev_ops.Base.{
  ◌≡◌, ◌∙◌, refl, sym, ap, subst, ℕ, zero, suc, ◌≤◌, Bool, true, false, List, [], ◌∷◌, ◌++◌, Option,
  length, arith, append_assoc, length-append,
}
use surgical_dev_ops.Framing.{
  Event, Counters, State, is_open, buffer, Round, wait, stop, go, round, proceed, drain, push,
}
use surgical_dev_ops.Framing.Rounds.{Extended, Shorter, round-Extended, round-Shorter}

module _ {ℓ} {A : Type ℓ} (decode : List ℕ → Option A) (now : ℕ → Option ℕ)
    (max_frame_bytes : ℕ) where
  pub drain-nil :
      (n : ℕ) (c : Counters) → drain decode now max_frame_bytes n c [] ≡ (is_open c [], [])
  unfolding drain round proceed
  drain-nil zero c = refl
  drain-nil (suc n) c = refl

  nil_of : (p : List ℕ) → length p ≤ 0 → p ≡ []
  nil_of [] h = refl
  nil_of (x ∷ p) h = absurd (omega arith)

  proceed-enough :
      (n m : ℕ) (c : Counters) (p : List ℕ) (r : Round A)
      → Shorter r n
      → Shorter r m
      → ((d : Counters) (rest : List ℕ)
          → length rest ≤ n
          → length rest ≤ m
          → drain decode now max_frame_bytes n d rest ≡ drain decode now max_frame_bytes m d rest)
      → proceed c p (λ d rest. drain decode now max_frame_bytes n d rest) r
        ≡ proceed c p (λ d rest. drain decode now max_frame_bytes m d rest) r
  unfolding proceed
  proceed-enough n m c p wait h k next = refl
  proceed-enough n m c p (stop d code) h k next = refl
  proceed-enough n m c p (go d events rest) h k next = rw (next d rest h k) refl

  -- Fuel for as many rounds as there are bytes is enough, and more makes no difference.
  pub drain-enough :
      (n m : ℕ) (c : Counters) (p : List ℕ)
      → length p ≤ n
      → length p ≤ m
      → drain decode now max_frame_bytes n c p ≡ drain decode now max_frame_bytes m c p
  unfolding drain
  drain-enough zero m c p h k = rw (nil_of p h) (sym (drain-nil m c))
  drain-enough (suc n) zero c p h k = rw (nil_of p k) (drain-nil (suc n) c)
  drain-enough (suc n) (suc m) c p h k =
      proceed-enough n m c p (round decode now max_frame_bytes c p)
        (round-Shorter decode now max_frame_bytes c p n h)
        (round-Shorter decode now max_frame_bytes c p m k)
        (λ d rest a b. drain-enough n m d rest a b)

  -- What a state makes of more bytes, after events that it made before.
  abbrev resume : State × List (Event A) → List ℕ → State × List (Event A)
  resume (s, events) b =
      let r = push decode now max_frame_bytes s (buffer b) in (r.0, events ++ r.1)

  resume-events :
      (r : State × List (Event A)) (events : List (Event A)) (b : List ℕ)
      → resume (r.0, events ++ r.1) b ≡ ((resume r b).0, events ++ (resume r b).1)
  resume-events (s, more) events b =
      ap (λ l. ((push decode now max_frame_bytes s (buffer b)).0, l))
        (append_assoc events more (push decode now max_frame_bytes s (buffer b)).1)

  wait-resumes :
      (m : ℕ) (c : Counters) (p b : List ℕ)
      → length (p ++ b) ≤ m
      → drain decode now max_frame_bytes m c (p ++ b) ≡ resume (is_open c p, []) b
  unfolding push
  wait-resumes m c p b k = drain-enough m (length (p ++ b)) c (p ++ b) k (omega arith)

  by_drain :
      (m : ℕ) (c : Counters) (p : List ℕ)
      → proceed c p
          (λ d rest. drain decode now max_frame_bytes m d rest)
          (round decode now max_frame_bytes c p)
        ≡ drain decode now max_frame_bytes (suc m) c p
  unfolding drain
  by_drain m c p = refl

  proceed-resumes :
      (n m : ℕ) (c : Counters) (p b : List ℕ) (r r' : Round A)
      → length (p ++ b) ≤ suc m
      → r' ≡ round decode now max_frame_bytes c (p ++ b)
      → Extended r b r'
      → Shorter r n
      → Shorter r' m
      → ((d : Counters) (rest : List ℕ)
          → length rest ≤ n
          → length (rest ++ b) ≤ m
          → drain decode now max_frame_bytes m d (rest ++ b)
            ≡ resume (drain decode now max_frame_bytes n d rest) b)
      → proceed c (p ++ b) (λ d rest. drain decode now max_frame_bytes m d rest) r'
        ≡ resume (proceed c p (λ d rest. drain decode now max_frame_bytes n d rest) r) b
  unfolding proceed push
  proceed-resumes n m c p b wait r' k is e less less' next =
      rw is (by_drain m c (p ++ b) ∙ wait-resumes (suc m) c p b k)
  proceed-resumes n m c p b (stop d code) r' k is e less less' next = rw e refl
  proceed-resumes n m c p b (go d events rest) r' k is e less less' next =
      rw (e, next d rest less (subst (λ q. Shorter q m) e less'))
        (sym (resume-events (drain decode now max_frame_bytes n d rest) events b))

  drain-resumes :
      (n m : ℕ) (c : Counters) (p b : List ℕ)
      → length p ≤ n
      → length (p ++ b) ≤ m
      → drain decode now max_frame_bytes m c (p ++ b)
        ≡ resume (drain decode now max_frame_bytes n c p) b
  drain-resumes zero m c p b h k =
      wait-resumes m c p b k
      ∙ ap (λ r. resume r b) {x = (is_open c p, [])} (rw (nil_of p h) (sym (drain-nil zero c)))
  drain-resumes (suc n) zero c p b h k =
      let none_left : p ≡ [] = nil_of p (omega (arith, length-append p b)) in
      wait-resumes zero c p b k
      ∙ ap (λ r. resume r b) {x = (is_open c p, [])} (rw none_left (sym (drain-nil (suc n) c)))
  drain-resumes (suc n) (suc m) c p b h k =
      sym (by_drain m c (p ++ b))
      ∙ proceed-resumes n m c p b (round decode now max_frame_bytes c p)
          (round decode now max_frame_bytes c (p ++ b)) k refl
          (round-Extended decode now max_frame_bytes c p b)
          (round-Shorter decode now max_frame_bytes c p n h)
          (round-Shorter decode now max_frame_bytes c (p ++ b) m k)
          (λ d rest i j. drain-resumes n m d rest b i j)
      ∙ ap (λ r. resume r b) (by_drain n c p)

  push_parts :
      (p : List ℕ) (closed : Bool) (c : Counters) (a b : List ℕ)
      → push decode now max_frame_bytes
          (record { pending = p; closed = closed; counters = c })
          (buffer (a ++ b))
        ≡ resume
            (push decode now max_frame_bytes
              (record { pending = p; closed = closed; counters = c })
              (buffer a))
            b
  unfolding push
  push_parts p true c a b = refl
  push_parts p false c a b = rw (← append_assoc p a b) (
      drain-resumes (length (p ++ a)) (length ((p ++ a) ++ b)) c (p ++ a) b (omega arith)
        (omega arith))

  -- A buffer that is pushed at once, and the same buffer pushed in two parts, one after the other,
  -- leave the decoder in the same state with the same events, whatever the state before.
  pub push-append :
      (s : State) (a b : List ℕ)
      → push decode now max_frame_bytes s (buffer (a ++ b)) ≡ (
          let r = push decode now max_frame_bytes s (buffer a) in
          let q = push decode now max_frame_bytes r.0 (buffer b) in (q.0, r.1 ++ q.1))
  push-append s a b = push_parts s.pending s.closed s.counters a b
