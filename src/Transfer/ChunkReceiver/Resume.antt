-- ===== src/Transfer/ChunkReceiver/Resume.antt =====
-- The resume point, and that the loop which finds it ends by its test.
use file_share_app.Base.{
  ℕ, zero, suc, ◌+◌, ◌≤◌, ◌<◌, ◌≡◌, refl, ◌∙◌, true, false, not, List, [], ◌∷◌, length, filter_by,
  eqb, eqb_iff, ltb, ltb→lt, arith, Bool-cases, inl, inr,
}
use file_share_app.Transfer.Crypto.{Crypto}
use file_share_app.Transfer.Sink.{ChunkSink}
use file_share_app.Transfer.ChunkReceiver.{contains, first_missing, Receiver, resume_from_chunk}

abbrev without : ℕ → List ℕ → List ℕ
without n = filter_by (λ k. not (eqb k n))

length-without-le : (n : ℕ) (ks : List ℕ) → length (without n ks) ≤ length ks
length-without-le n [] = omega arith
length-without-le n (k ∷ ks) = ground (arith, length-without-le n ks)

length-without-lt : (n : ℕ) (ks : List ℕ) → contains ks n ≡ true → length (without n ks) < length ks
unfolding contains
length-without-lt n [] h = cc
length-without-lt n (k ∷ ks) h = ground (arith, length-without-le n ks, length-without-lt n ks)

contains-without : (n m : ℕ) (ks : List ℕ) → m < n → contains (without n ks) m ≡ contains ks m
unfolding contains
contains-without n m [] h = refl
contains-without n m (k ∷ ks) h = ground (arith, contains-without n m ks h)

-- A list that holds the numbers from `n` to `n + count` has `count` elements at least.
pigeonhole :
    (count n : ℕ) (ks : List ℕ)
    → ((m : ℕ) → n ≤ m → m < n + count → contains ks m ≡ true)
    → count ≤ length ks
pigeonhole zero n ks h = omega arith
pigeonhole (suc count) n ks h =
    let fewer =
      pigeonhole count n (without (n + count) ks)
        (λ m le lt. contains-without (n + count) m ks lt ∙ h m le (omega arith)) in
    omega
      (arith, fewer, length-without-lt (n + count) ks (h (n + count) (omega arith) (omega arith)))

upwards :
    (n : ℕ) (ks : List ℕ) (end : ℕ)
    → contains ks n ≡ true
    → ((m : ℕ) → suc n ≤ m → m < end → contains ks m ≡ true)
    → (m : ℕ) → n ≤ m
    → m < end
    → contains ks m ≡ true
upwards n ks end e held m le lt = elim (Bool-cases (eqb n m)) [
  | inl same ↦ let p : n ≡ m = (eqb_iff n m).0 same in rw (← p) e
  | inr other ↦ held m (ground arith) lt
]

-- Up to the result, every number from `n` on is there; the rounds run out only if all of them are.
first_missing_lem :
    (rounds : ℕ) (ks : List ℕ) (n : ℕ)
    → ((m : ℕ) → n ≤ m → m < first_missing rounds ks n → contains ks m ≡ true)
      × (n ≤ first_missing rounds ks n)
      × (first_missing rounds ks n ≤ n + rounds)
      × (first_missing rounds ks n < n + rounds → contains ks (first_missing rounds ks n) ≡ false)
unfolding first_missing
first_missing_lem zero ks n =
    ((λ m le lt. absurd (omega arith)), omega arith, omega arith, λ lt. absurd (omega arith))
first_missing_lem (suc rounds) ks n = elim (Bool-cases (contains ks n)) [
  | inl e ↦
      let (held, le, bound, gap) = first_missing_lem rounds ks (suc n) in
      rw e (upwards n ks _ e held, omega arith, omega arith, λ lt. gap (omega arith))
  | inr e ↦ rw e ((λ m le lt. absurd (omega arith)), omega arith, omega arith, λ lt. e)
]

module _ (c : Crypto) (k : ChunkSink) where
  -- Below the resume point everything was received, and the point itself was not.
  resume_from_chunk_lem :
      (r : Receiver c k)
      → ((m : ℕ) → m < resume_from_chunk c k r → contains r.received m ≡ true)
        × (contains r.received (resume_from_chunk c k r) ≡ false)
  unfolding resume_from_chunk
  resume_from_chunk_lem r =
      let rounds = suc (length r.received) in
      let (held, le, bound, gap) = first_missing_lem rounds r.received 0 in
      (
        (λ m lt. held m (omega arith) lt),
        elim (Bool-cases (ltb (first_missing rounds r.received 0) rounds)) [
          | inl within ↦ gap (ground arith)
          | inr all ↦ absurd (
              let few =
                pigeonhole (suc (length r.received)) 0 r.received
                  (λ m le lt. held m le (ground arith)) in
              omega arith)
        ],
      )

  -- When a chunk index was not received, `resumeFromChunk` is an index that was not received, and
  -- at most that index.
  pub resume_from_chunk_least :
      (r : Receiver c k) (n : ℕ)
      → contains r.received n ≡ false
      → (contains r.received (resume_from_chunk c k r) ≡ false) × (resume_from_chunk c k r ≤ n)
  resume_from_chunk_least r n missing =
      let (held, gap) = resume_from_chunk_lem r in
      (
        gap,
        elim (Bool-cases (ltb n (resume_from_chunk c k r))) [
          | inl lt ↦ cc (held n (ltb→lt _ _ lt), missing)
          | inr ge ↦ ground arith
        ],
      )

  -- The index from which on nothing is missing below it is the resume point.
  pub resume_from_chunk_unique :
      (r : Receiver c k) (n : ℕ)
      → ((m : ℕ) → m < n → contains r.received m ≡ true)
      → contains r.received n ≡ false
      → resume_from_chunk c k r ≡ n
  resume_from_chunk_unique r n held gap =
      let (below, missing) = resume_from_chunk_lem r in
      elim (Bool-cases (ltb n (resume_from_chunk c k r))) [
        | inl lt ↦ cc (below n (ltb→lt _ _ lt), gap)
        | inr ge ↦ elim (Bool-cases (ltb (resume_from_chunk c k r) n)) [
          | inl lt ↦ cc (held _ (ltb→lt _ _ lt), missing)
          | inr same ↦ ground arith
        ]
      ]
