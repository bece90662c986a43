-- ===== src/Envoy/Chunking/Laws.antt =====
-- pkg/common/envoy/chunking.go: the chunks are the body, within the limit, and end the stream once.
use llm_d_inference_payload.Prelude.{
  Bytes, ℕ, zero, suc, ◌+◌, ◌-◌, ◌≤◌, ◌<◌, Bool, true, false, ◌&&◌, ltb, leb, List, [], ◌∷◌, ◌++◌,
  none, some, length, drop, All, ◌≡◌, refl, sym, ap, ◌∙◌, arith, append_assoc, append-nil,
  length-take, length-drop, take-append-drop, Bool-cases, inl, inr,
}
use llm_d_inference_payload.Envoy.{CommonResponse}
use llm_d_inference_payload.Envoy.Chunking.{
  chunk_length, chunk_at, chunk_loop, build_chunked_body_responses, body_byte_limit,
}

-- the bytes that a response carries, and its end-of-stream flag
abbrev pub bytes_of : CommonResponse → Bytes
bytes_of r = elim r.body_mutation [ none ↦ [] | some s ↦ s.body ]

abbrev pub ends : CommonResponse → Bool
ends r = elim r.body_mutation [ none ↦ false | some s ↦ s.end_of_stream ]

-- what a receiver of the responses puts together
abbrev pub joined : List CommonResponse → Bytes
joined [] = []
joined (r ∷ rs) = bytes_of r ++ joined rs

-- Every response but the last is full and does not end the stream; the last one is within the limit
-- and ends the stream exactly if `eos`.
abbrev pub WellChunked : Bool → List CommonResponse → Type 0
WellChunked eos [] = ⊥
WellChunked eos (r ∷ []) = (ends r ≡ eos) × (length (bytes_of r) ≤ body_byte_limit)
WellChunked eos (r ∷ s ∷ rs) =
    ((ends r ≡ false) × (length (bytes_of r) ≡ body_byte_limit)) × WellChunked eos (s ∷ rs)

pub joined-append : (rs ss : List CommonResponse) → joined (rs ++ ss) ≡ joined rs ++ joined ss
joined-append [] ss = refl
joined-append (r ∷ rs) ss =
    ap (◌++◌ (bytes_of r)) (joined-append rs ss)
    ∙ sym (append_assoc (bytes_of r) (joined rs) (joined ss))

drop-nil : (n : ℕ) → drop {A = ℕ} n [] ≡ []
drop-nil zero = refl
drop-nil (suc n) = refl

drop-drop : (i n : ℕ) (xs : Bytes) → drop n (drop i xs) ≡ drop (n + i) xs
drop-drop i zero xs = let e : 0 + i ≡ i = omega arith in rw e
drop-drop zero n xs = let e : n + 0 ≡ n = omega arith in rw e
drop-drop (suc i) n [] = rw (drop-nil n) (sym (drop-nil (n + suc i)))
drop-drop (suc i) n (x ∷ xs) =
    let e : n + suc i ≡ suc (n + i) = omega arith in rw e (drop-drop i n xs)

drop_all : (i : ℕ) (xs : Bytes) → length xs ≤ i → drop i xs ≡ []
drop_all i [] h = drop-nil i
drop_all zero (x ∷ xs) h = absurd (omega arith)
drop_all (suc i) (x ∷ xs) h = drop_all i xs (omega arith)

module _ (body : Bytes) (eos : Bool) where
  -- one round takes the chunk off the rest of the body
  chunk_at-drop :
      (i : ℕ) → bytes_of (chunk_at body eos i) ++ drop (i + chunk_length body i) body ≡ drop i body
  unfolding chunk_at chunk_length
  chunk_at-drop i =
      let n = chunk_length body i in
      let a : (n + i) - i ≡ n = omega arith in
      let b : i + n ≡ n + i = omega arith in
      rw (a, b, ← drop-drop i n body) (take-append-drop n (drop i body))

  joined-chunk_loop :
      (fuel i : ℕ) (rs : List CommonResponse)
      → length body ≤ fuel + i
      → joined (chunk_loop fuel body eos i rs) ≡ joined rs ++ drop i body
  unfolding chunk_loop chunk_length
  joined-chunk_loop zero i rs h = rw (drop_all i body (omega arith)) (sym (append-nil (joined rs)))
  joined-chunk_loop (suc fuel) i rs h = elim (Bool-cases (ltb i (length body))) [
    | inl more ↦
        rw (more, chunk_loop)
          (joined-chunk_loop fuel (i + chunk_length body i) (rs ++ chunk_at body eos i ∷ [])
              (ground arith)
            ∙ rw (joined-append rs (chunk_at body eos i ∷ []), append-nil, append_assoc)
                (ap (◌++◌ (joined rs)) (chunk_at-drop i)))
    | inr done ↦
        let rest : drop i body ≡ [] = drop_all i body (ground arith) in
        rw (done, chunk_loop, rest) (sym (append-nil (joined rs)))
  ]

  -- all full and open so far
  abbrev AllOpen : List CommonResponse → Type 0
  AllOpen rs = All (λ r. (ends r ≡ false) × (length (bytes_of r) ≡ body_byte_limit)) rs

  WellChunked-append :
      (rs : List CommonResponse) (c : CommonResponse)
      → AllOpen rs
      → WellChunked eos (c ∷ [])
      → WellChunked eos (rs ++ c ∷ [])
  WellChunked-append [] c o h = h
  WellChunked-append (r ∷ []) c o h = (o.0, h)
  WellChunked-append (r ∷ t ∷ rs) c o h = (o.0, WellChunked-append (t ∷ rs) c o.1 h)

  AllOpen-snoc :
      (rs : List CommonResponse) (r : CommonResponse)
      → AllOpen rs
      → (ends r ≡ false) × (length (bytes_of r) ≡ body_byte_limit)
      → AllOpen (rs ++ r ∷ [])
  AllOpen-snoc [] r o h = (h, tt)
  AllOpen-snoc (s ∷ rs) r o h = (o.0, AllOpen-snoc rs r o.1 h)

  chunk_loop_done :
      (fuel i : ℕ) (rs : List CommonResponse) → length body ≤ i → chunk_loop fuel body eos i rs ≡ rs
  unfolding chunk_loop
  chunk_loop_done zero i rs h = refl
  chunk_loop_done (suc fuel) i rs h = ground arith

  length-chunk_at :
      (i : ℕ) → i < length body → length (bytes_of (chunk_at body eos i)) ≡ chunk_length body i
  unfolding chunk_at chunk_length
  length-chunk_at i h =
      let n = chunk_length body i in
      omega (arith, length-take ((n + i) - i) (drop i body), length-drop i body)

  ends-chunk_at :
      (i : ℕ) → ends (chunk_at body eos i) ≡ (eos && leb (length body) (chunk_length body i + i))
  unfolding chunk_at
  ends-chunk_at i = refl

  WellChunked-chunk_loop :
      (fuel i : ℕ) (rs : List CommonResponse)
      → length body ≤ fuel + i
      → i < length body
      → AllOpen rs
      → WellChunked eos (chunk_loop fuel body eos i rs)
  unfolding chunk_loop chunk_length
  WellChunked-chunk_loop zero i rs h l o = absurd (omega arith)
  WellChunked-chunk_loop (suc fuel) i rs h l o =
      let n = chunk_length body i in
      let c = chunk_at body eos i in
      let more : ltb i (length body) ≡ true = ground arith in
      let size = length-chunk_at i l in
      let flag = ends-chunk_at i in
      rw (more, chunk_loop)
        (elim (Bool-cases (ltb (i + n) (length body))) [
          | inl m ↦
              let open_ : ends c ≡ false = ground arith in
              let full : length (bytes_of c) ≡ body_byte_limit = ground arith in
              WellChunked-chunk_loop fuel (i + n) (rs ++ c ∷ []) (ground arith) (ground arith)
                (AllOpen-snoc rs c o (open_, full))
          | inr d ↦
              let last : ends c ≡ eos = ground arith in
              rw (chunk_loop_done fuel (i + n) (rs ++ c ∷ []) (ground arith))
                (WellChunked-append rs c o (last, ground arith))
        ])

-- The bytes of the responses, put together in order, are the body: no byte is lost, repeated or
-- moved.
pub joined-build_chunked_body_responses :
    (body : Bytes) (set_eos : Bool) → joined (build_chunked_body_responses body set_eos) ≡ body
unfolding build_chunked_body_responses
joined-build_chunked_body_responses [] eos = refl
joined-build_chunked_body_responses (b ∷ bs) eos =
    joined-chunk_loop (b ∷ bs) eos (length (b ∷ bs)) 0 [] (omega arith)

-- There is at least one response; every one but the last carries exactly 62000 bytes and does not
-- end the stream, and the last carries at most 62000 and ends it exactly if `set_eos`.
pub build_chunked_body_responses-WellChunked :
    (body : Bytes) (set_eos : Bool)
    → WellChunked set_eos (build_chunked_body_responses body set_eos)
unfolding build_chunked_body_responses
build_chunked_body_responses-WellChunked [] eos = (refl, omega arith)
build_chunked_body_responses-WellChunked (b ∷ bs) eos =
    WellChunked-chunk_loop (b ∷ bs) eos (length (b ∷ bs)) 0 [] (omega arith) (omega arith) tt
