-- ===== src/Framing/Rounds.antt =====
-- One round of the decoder's loop: more bytes behind it, and the bytes that it leaves.
use surgical_dev_ops.Base.{
  ◌≡◌, refl, ap, ℕ, zero, suc, ◌≤◌, false, List, [], ◌∷◌, ◌++◌, Option, none, some, ltb, ◌==◌,
  length, take, drop, arith, length-append, Bool-cases, inl, inr,
}
use surgical_dev_ops.Framing.{
  Counters, Round, wait, stop, go, dispatch, decode_body, with_length, round, read_length,
}

take-prefix {ℓ} :
    {A : Type ℓ} (n : ℕ) (xs ys : List A) → n ≤ length xs → take n (xs ++ ys) ≡ take n xs
take-prefix zero xs ys h = refl
take-prefix (suc n) [] ys h = absurd (omega arith)
take-prefix (suc n) (x ∷ xs) ys h = ap (λ l. x ∷ l) (take-prefix n xs ys (omega arith))

drop-prefix {ℓ} :
    {A : Type ℓ} (n : ℕ) (xs ys : List A) → n ≤ length xs → drop n (xs ++ ys) ≡ drop n xs ++ ys
drop-prefix zero xs ys h = refl
drop-prefix (suc n) [] ys h = absurd (omega arith)
drop-prefix (suc n) (x ∷ xs) ys h = drop-prefix n xs ys (omega arith)

length-drop {ℓ} : {A : Type ℓ} (n : ℕ) (xs : List A) → length (drop n xs) ≤ length xs
length-drop zero xs = omega arith
length-drop (suc n) [] = omega arith
length-drop (suc n) (x ∷ xs) = omega (arith, length-drop n xs)

-- A round whose rest has more bytes behind it; a round that waits may do anything with them.
abbrev pub Extended {ℓ} : {A : Type ℓ} → Round A → List ℕ → Round A → Type ℓ
Extended wait b r = Unit
Extended (stop c code) b r = r ≡ stop c code
Extended (go c events rest) b r = r ≡ go c events (rest ++ b)

-- What is left of a round that goes on is shorter than what it had.
abbrev pub Shorter {ℓ} : {A : Type ℓ} → Round A → ℕ → Type 0
Shorter wait n = Unit
Shorter (stop c code) n = Unit
Shorter (go c events rest) n = length rest ≤ n

module _ {ℓ} {A : Type ℓ} (decode : List ℕ → Option A) (now : ℕ → Option ℕ)
    (max_frame_bytes : ℕ) where
  dispatch-Extended :
      (c : Counters) (m : A) (rest b : List ℕ) (time : Option ℕ)
      → Extended
          (dispatch decode now max_frame_bytes c m rest time)
          b
          (dispatch decode now max_frame_bytes c m (rest ++ b) time)
  unfolding dispatch
  dispatch-Extended c m rest b none = refl
  dispatch-Extended c m rest b (some time) = refl

  decode_body-Extended :
      (c : Counters) (o : Option A) (rest b : List ℕ)
      → Extended
          (decode_body decode now max_frame_bytes c o rest)
          b
          (decode_body decode now max_frame_bytes c o (rest ++ b))
  unfolding decode_body
  decode_body-Extended c none rest b = refl
  decode_body-Extended c (some m) rest b = dispatch-Extended c m rest b _

  with_length-Extended :
      (c : Counters) (n : ℕ) (rest b : List ℕ)
      → Extended
          (with_length decode now max_frame_bytes c n rest)
          b
          (with_length decode now max_frame_bytes c n (rest ++ b))
  unfolding with_length
  with_length-Extended c n rest b = elim (Bool-cases (n == 0)) [
    | inl e ↦ rw e refl
    | inr e ↦ elim (Bool-cases (ltb max_frame_bytes n)) [
      | inl f ↦ rw (e, f) refl
      | inr f ↦ elim (Bool-cases (ltb (length rest) n)) [
        | inl g ↦ rw (e, f, g) tt
        | inr g ↦
            let enough : n ≤ length rest = ground (arith, g) in
            let long : ltb (length (rest ++ b)) n ≡ false =
              ground (arith, length-append rest b, enough) in
            rw (e, f, g, long, take-prefix n rest b enough, drop-prefix n rest b enough)
              (decode_body-Extended c (decode (take n rest)) (drop n rest) b)
      ]
    ]
  ]

  pub round-Extended :
      (c : Counters) (p b : List ℕ)
      → Extended
          (round decode now max_frame_bytes c p)
          b
          (round decode now max_frame_bytes c (p ++ b))
  unfolding round
  round-Extended c [] b = tt
  round-Extended c (h0 ∷ []) b = tt
  round-Extended c (h0 ∷ h1 ∷ []) b = tt
  round-Extended c (h0 ∷ h1 ∷ h2 ∷ []) b = tt
  round-Extended c (h0 ∷ h1 ∷ h2 ∷ h3 ∷ rest) b =
      with_length-Extended c (read_length h0 h1 h2 h3) rest b

  dispatch-Shorter :
      (c : Counters) (m : A) (rest : List ℕ) (time : Option ℕ) (n : ℕ)
      → length rest ≤ n
      → Shorter (dispatch decode now max_frame_bytes c m rest time) n
  unfolding dispatch
  dispatch-Shorter c m rest none n h = tt
  dispatch-Shorter c m rest (some time) n h = h

  decode_body-Shorter :
      (c : Counters) (o : Option A) (rest : List ℕ) (n : ℕ)
      → length rest ≤ n
      → Shorter (decode_body decode now max_frame_bytes c o rest) n
  unfolding decode_body
  decode_body-Shorter c none rest n h = tt
  decode_body-Shorter c (some m) rest n h = dispatch-Shorter c m rest _ n h

  with_length-Shorter :
      (c : Counters) (k : ℕ) (rest : List ℕ) (n : ℕ)
      → length rest ≤ n
      → Shorter (with_length decode now max_frame_bytes c k rest) n
  unfolding with_length
  with_length-Shorter c k rest n h = elim (Bool-cases (k == 0)) [
    | inl e ↦ rw e tt
    | inr e ↦ elim (Bool-cases (ltb max_frame_bytes k)) [
      | inl f ↦ rw (e, f) tt
      | inr f ↦ elim (Bool-cases (ltb (length rest) k)) [
        | inl g ↦ rw (e, f, g) tt
        | inr g ↦
            rw (e, f, g)
              (decode_body-Shorter c (decode (take k rest)) (drop k rest) n
                (omega (arith, length-drop k rest, h)))
      ]
    ]
  ]

  pub round-Shorter :
      (c : Counters) (p : List ℕ) (n : ℕ)
      → length p ≤ suc n
      → Shorter (round decode now max_frame_bytes c p) n
  unfolding round
  round-Shorter c [] n h = tt
  round-Shorter c (h0 ∷ []) n h = tt
  round-Shorter c (h0 ∷ h1 ∷ []) n h = tt
  round-Shorter c (h0 ∷ h1 ∷ h2 ∷ []) n h = tt
  round-Shorter c (h0 ∷ h1 ∷ h2 ∷ h3 ∷ rest) n h =
      with_length-Shorter c (read_length h0 h1 h2 h3) rest n (omega arith)
