-- ===== src/Transfer/Pump/Progress.antt =====
-- What holds of a pump at every moment: it has sent the chunks so far, in order and once, and has
-- hashed them and all that came before.
use file_share_app.Base.{
  ℕ, suc, ◌+◌, ◌-◌, ◌*◌, ◌≤◌, ◌<◌, ◌≡◌, refl, sym, ap, ◌∙◌, subst, Bool, true, false, List, [], ◌∷◌,
  ◌++◌, length, Option, none, some, arith, max, ltb, ltb→lt, if◌then◌else◌, Bool-cases, inl, inr,
  Utf16,
}
use file_share_app.Transfer.Crypto.{Crypto}
use file_share_app.Transfer.Pump.{
  Phase, hashing, top, parked, resumed, blocked, spaced, reading, encrypting, finished, completed,
  was_cancelled, Event, turn, pauses, resumes, cancels, buffer_low, Output, Config, Pump,
  EncryptionSession, chunk, read, send_sealed, take_turn, wake, drain, step, start, run,
}
use file_share_app.Transfer.Pump.Plan.{
  outputs_of, outputs_from, hashed, update-hashed, hashed_all, hashed_zero,
}

-- The digest of the file, as the sender announces it.
abbrev pub file_checksum : (c : Crypto) → Config c → Utf16
file_checksum c cfg = c.bytes_to_hex (c.digest (c.update c.create cfg.file))

module _ (c : Crypto) (cfg : Config c) (from_chunk : ℕ) where
  open c use {Hasher, update, digest, bytes_to_hex}

  -- All rounds before `i` are done, and nothing else.
  abbrev pub Done : ℕ → Hasher → List Output → Type 0
  Done i h sent =
      (from_chunk ≤ i)
      × (h ≡ hashed c cfg i)
      × (sent ≡ outputs_from c cfg from_chunk (i - from_chunk))

  abbrev pub Progress : Phase → Hasher → List Output → Type 0
  Progress (hashing k upto) h sent =
      (k < from_chunk) × (upto ≡ from_chunk) × (h ≡ hashed c cfg k) × (sent ≡ [])
  Progress (top i) h sent = Done i h sent × (i ≤ max cfg.total_chunks from_chunk)
  Progress (parked i) h sent = Done i h sent × (i < cfg.total_chunks)
  Progress (resumed i) h sent = Done i h sent × (i < cfg.total_chunks)
  Progress (blocked i) h sent = Done i h sent × (i < cfg.total_chunks)
  Progress (spaced i) h sent = Done i h sent × (i < cfg.total_chunks)
  Progress (reading i) h sent = Done i h sent × (i < cfg.total_chunks)
  Progress (encrypting i buffer) h sent =
      (from_chunk ≤ i)
      × (i < cfg.total_chunks)
      × (buffer ≡ chunk c cfg i)
      × (h ≡ hashed c cfg (suc i))
      × (sent ≡ outputs_from c cfg from_chunk (i - from_chunk))
  Progress (finished (completed checksum)) h sent =
      (i : ℕ) × Done i h sent
      × (cfg.total_chunks ≤ i)
      × (i ≤ max cfg.total_chunks from_chunk)
      × (checksum ≡ bytes_to_hex (digest h))
  Progress (finished was_cancelled) h sent =
      (i : ℕ) × (i < cfg.total_chunks)
      × (from_chunk ≤ i)
      × (sent ≡ outputs_from c cfg from_chunk (i - from_chunk))

  abbrev pub IsSound : Pump c → Type 0
  IsSound p = Progress p.phase p.hasher p.sent

  outputs_from_zero : outputs_from c cfg from_chunk 0 ≡ []
  unfolding outputs_from
  outputs_from_zero = refl

  outputs_from-next :
      (i : ℕ)
      → from_chunk ≤ i
      → outputs_from c cfg from_chunk (i - from_chunk) ++ outputs_of c cfg cfg.encryption i
        ≡ outputs_from c cfg from_chunk (suc i - from_chunk)
  unfolding outputs_from
  outputs_from-next i h =
      let e : suc i - from_chunk ≡ suc (i - from_chunk) = omega arith in
      let f : from_chunk + (i - from_chunk) ≡ i = omega arith in
      rw (e, outputs_from)
        (ap
          (λ j. outputs_from c cfg from_chunk (i - from_chunk) ++ outputs_of c cfg cfg.encryption j)
          (sym f))

  -- The turn that sends round `i`, with and without encryption.
  send-Done :
      (enc : Option (EncryptionSession c)) (i : ℕ) (h : Hasher) (sent : List Output)
      → cfg.encryption ≡ enc
      → from_chunk ≤ i
      → h ≡ hashed c cfg (suc i)
      → sent ≡ outputs_from c cfg from_chunk (i - from_chunk)
      → Done (suc i) h (sent ++ outputs_of c cfg enc i)
  send-Done enc i h sent e le eh es = (
    omega arith,
    eh,
    rw (← e) (ap (λ s. s ++ outputs_of c cfg cfg.encryption i) es ∙ outputs_from-next i le),
  )

  read-IsSound :
      (enc : Option (EncryptionSession c)) (p : Pump c) (i : ℕ)
      → cfg.encryption ≡ enc
      → Progress (reading i) p.hasher p.sent
      → IsSound (read c cfg enc i (chunk c cfg i) p)
  unfolding read outputs_of
  read-IsSound none p i e ((le, eh, es), lt) = (
    send-Done none i (update p.hasher (chunk c cfg i)) p.sent e le
        (ap (λ h. update h (chunk c cfg i)) eh ∙ update-hashed c cfg i) es,
    omega arith,
  )
  read-IsSound (some session) p i e ((le, eh, es), lt) =
      (le, lt, refl, ap (λ h. update h (chunk c cfg i)) eh ∙ update-hashed c cfg i, es)

  send_sealed-IsSound :
      (enc : Option (EncryptionSession c)) (p : Pump c) (i : ℕ) (buffer : List ℕ)
      → cfg.encryption ≡ enc
      → Progress (encrypting i buffer) p.hasher p.sent
      → IsSound (send_sealed c cfg enc i buffer p)
  unfolding send_sealed outputs_of
  send_sealed-IsSound none p i buffer e (le, lt, eb, eh, es) =
      rw eb (send-Done none i p.hasher p.sent e le eh es, omega arith)
  send_sealed-IsSound (some session) p i buffer e (le, lt, eb, eh, es) =
      rw eb (send-Done (some session) i p.hasher p.sent e le eh es, omega arith)

  hashing-Progress :
      (k : ℕ) (h : Hasher)
      → k < from_chunk
      → h ≡ hashed c cfg k
      → Progress
          (if ltb (suc k) from_chunk then hashing (suc k) from_chunk else top from_chunk)
          (update h (chunk c cfg k))
          []
  hashing-Progress k h lt eh =
      let eh' = ap (λ g. update g (chunk c cfg k)) eh ∙ update-hashed c cfg k in
      elim (Bool-cases (ltb (suc k) from_chunk)) [
        | inl more ↦ rw more (ltb→lt _ _ more, refl, eh', refl)
        | inr last ↦
            let none_sent : outputs_from c cfg from_chunk (from_chunk - from_chunk) ≡ [] =
              ap (outputs_from c cfg from_chunk) {x = from_chunk - from_chunk} {y = 0} (omega arith)
              ∙ outputs_from_zero in
            let same : suc k ≡ from_chunk = ground arith in
            rw last ((omega arith, eh' ∙ ap (hashed c cfg) same, sym none_sent), omega arith)
      ]

  -- The tests before a round, each on either side.
  top-IsSound :
      (p : Pump c) (i : ℕ) (more cancelled paused : Bool)
      → ltb i cfg.total_chunks ≡ more
      → Progress (top i) p.hasher p.sent
      → IsSound (
          if more
          then if cancelled
            then record p { phase = finished was_cancelled }
            else record p { phase = if paused then parked i else resumed i }
          else record p { phase = finished (completed (bytes_to_hex (digest p.hasher))) })
  top-IsSound p i true true paused e ((le, eh, es), _) = (i, ltb→lt _ _ e, le, es)
  top-IsSound p i true false true e (s, _) = (s, ltb→lt _ _ e)
  top-IsSound p i true false false e (s, _) = (s, ltb→lt _ _ e)
  top-IsSound p i false cancelled paused e (s, le) = (i, s, ground arith, le, refl)

  resumed-IsSound :
      (p : Pump c) (i : ℕ) (cancelled room : Bool)
      → Progress (resumed i) p.hasher p.sent
      → IsSound (
          if cancelled
          then record p { phase = finished was_cancelled }
          else record p { phase = if room then spaced i else blocked i })
  resumed-IsSound p i true room ((le, eh, es), lt) = (i, lt, le, es)
  resumed-IsSound p i false true s = s
  resumed-IsSound p i false false s = s

  spaced-IsSound :
      (p : Pump c) (i : ℕ) (cancelled : Bool)
      → Progress (spaced i) p.hasher p.sent
      → Progress (if cancelled then finished was_cancelled else reading i) p.hasher p.sent
  spaced-IsSound p i true ((le, eh, es), lt) = (i, lt, le, es)
  spaced-IsSound p i false s = s

  take_turn-IsSound :
      (p : Pump c) (phase : Phase) (buffered : ℕ)
      → Progress phase p.hasher p.sent
      → p.phase ≡ phase
      → IsSound (take_turn c cfg buffered phase p)
  unfolding take_turn
  take_turn-IsSound p (hashing k upto) buffered (lt, eu, eh, es) e =
      rw (eu, es) (hashing-Progress k p.hasher lt eh)
  take_turn-IsSound p (top i) buffered s e = top-IsSound p i _ p.cancelled p.paused refl s
  take_turn-IsSound p (parked i) buffered s e = subst (λ f. Progress f p.hasher p.sent) (sym e) s
  take_turn-IsSound p (resumed i) buffered s e = resumed-IsSound p i p.cancelled _ s
  take_turn-IsSound p (blocked i) buffered s e = subst (λ f. Progress f p.hasher p.sent) (sym e) s
  take_turn-IsSound p (spaced i) buffered s e = spaced-IsSound p i p.cancelled s
  take_turn-IsSound p (reading i) buffered s e = read-IsSound cfg.encryption p i refl s
  take_turn-IsSound p (encrypting i buffer) buffered s e =
      send_sealed-IsSound cfg.encryption p i buffer refl s
  take_turn-IsSound p (finished o) buffered s e = subst (λ f. Progress f p.hasher p.sent) (sym e) s

  wake-Progress :
      (phase : Phase) (h : Hasher) (sent : List Output)
      → Progress phase h sent
      → Progress (wake phase) h sent
  unfolding wake
  wake-Progress (parked i) h sent s = s
  wake-Progress _ h sent s = s

  drain-Progress :
      (phase : Phase) (h : Hasher) (sent : List Output)
      → Progress phase h sent
      → Progress (drain phase) h sent
  unfolding drain
  drain-Progress (blocked i) h sent s = s
  drain-Progress _ h sent s = s

  pub step-IsSound : (p : Pump c) (e : Event) → IsSound p → IsSound (step c cfg p e)
  unfolding step
  step-IsSound p (turn buffered) s = take_turn-IsSound p p.phase buffered s refl
  step-IsSound p pauses s = s
  step-IsSound p resumes s = wake-Progress p.phase p.hasher p.sent s
  step-IsSound p cancels s = wake-Progress p.phase p.hasher p.sent s
  step-IsSound p buffer_low s = drain-Progress p.phase p.hasher p.sent s

  pub run-IsSound : (p : Pump c) (es : List Event) → IsSound p → IsSound (run c cfg p es)
  unfolding run
  run-IsSound p [] s = s
  run-IsSound p (e ∷ es) s = run-IsSound (step c cfg p e) es (step-IsSound p e s)

  start_phase-Progress :
      (fresh : Bool)
      → ltb 0 from_chunk ≡ fresh
      → Progress (if fresh then hashing 0 from_chunk else top from_chunk) c.create []
  start_phase-Progress true e = (ltb→lt 0 from_chunk e, refl, sym (hashed_zero c cfg), refl)
  start_phase-Progress false e =
      let zero_chunk : from_chunk ≡ 0 = ground arith in
      (
        (
          omega arith,
          sym (hashed_zero c cfg) ∙ ap (hashed c cfg) (sym zero_chunk),
          sym (
              ap (outputs_from c cfg from_chunk) {x = from_chunk - from_chunk} {y = 0} (omega arith)
              ∙ outputs_from_zero),
        ),
        omega arith,
      )

  pub start-IsSound : IsSound (start c from_chunk)
  unfolding start
  start-IsSound = start_phase-Progress (ltb 0 from_chunk) refl

  -- Whatever a sound pump has sent is a first part of its rounds.
  pub sent_prefix :
      (p : Pump c)
      → IsSound p
      → (count : ℕ) × (from_chunk + count ≤ max cfg.total_chunks from_chunk)
        × (p.sent ≡ outputs_from c cfg from_chunk count)
  sent_prefix p s = prefix_of p.phase s
    where
      prefix_of :
          (phase : Phase)
          → Progress phase p.hasher p.sent
          → (count : ℕ) × (from_chunk + count ≤ max cfg.total_chunks from_chunk)
            × (p.sent ≡ outputs_from c cfg from_chunk count)
      prefix_of (hashing i upto) (_, _, _, es) = (0, omega arith, es ∙ sym outputs_from_zero)
      prefix_of (top i) ((le, _, es), below) = (i - from_chunk, omega arith, es)
      prefix_of (parked i) ((le, _, es), lt) = (i - from_chunk, omega arith, es)
      prefix_of (resumed i) ((le, _, es), lt) = (i - from_chunk, omega arith, es)
      prefix_of (blocked i) ((le, _, es), lt) = (i - from_chunk, omega arith, es)
      prefix_of (spaced i) ((le, _, es), lt) = (i - from_chunk, omega arith, es)
      prefix_of (reading i) ((le, _, es), lt) = (i - from_chunk, omega arith, es)
      prefix_of (encrypting i buffer) (le, lt, _, _, es) = (i - from_chunk, omega arith, es)
      prefix_of (finished (completed checksum)) (i, (le, _, es), _, below, _) =
          (i - from_chunk, omega arith, es)
      prefix_of (finished was_cancelled) (i, lt, le, es) = (i - from_chunk, omega arith, es)

  -- Whatever pauses, resumptions, cancellations and buffer levels come between the turns of
  -- `run(from_chunk)`: if the chunks cover the file and the run ends as completed, then it has sent
  -- each chunk from `from_chunk` on, in order and once, and its checksum is that of the whole file.
  pub run-completed :
      (es : List Event) (checksum : Utf16)
      → from_chunk ≤ cfg.total_chunks
      → length cfg.file ≤ cfg.total_chunks * cfg.chunk_size
      → (run c cfg (start c from_chunk) es).phase ≡ finished (completed checksum)
      → (checksum ≡ file_checksum c cfg)
        × ((run c cfg (start c from_chunk) es).sent
            ≡ outputs_from c cfg from_chunk (cfg.total_chunks - from_chunk))
  run-completed es checksum le covers e =
      let p = run c cfg (start c from_chunk) es in
      let (i, done, reached, below, sum) =
        subst (λ f. Progress f p.hasher p.sent) e
          (run-IsSound (start c from_chunk) es start-IsSound) in
      let last : i ≡ cfg.total_chunks = omega arith in
      let whole = ap (hashed c cfg) last ∙ hashed_all c cfg cfg.total_chunks covers in
      (
        sum ∙ ap (λ h. bytes_to_hex (digest h)) (done.1 ∙ whole),
        done.2 ∙ ap (λ n. outputs_from c cfg from_chunk (n - from_chunk)) last,
      )
