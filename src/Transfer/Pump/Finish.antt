-- ===== src/Transfer/Pump/Finish.antt =====
-- A pump that is let run ends: the turns that it needs, and that it then has completed.
use file_share_app.Base.{
  ℕ, ◌+◌, ◌-◌, ◌*◌, ◌≤◌, ◌<◌, ◌≡◌, refl, subst, ap, ◌∙◌, ◌⊎◌, inl, inr, Bool, true, false, List, [],
  ◌∷◌, Option, none, some, arith, All, Utf16, map, length, ltb, if◌then◌else◌,
}
use file_share_app.Shared.Constants.{buffered_amount_high_watermark}
use file_share_app.Transfer.Crypto.{Crypto}
use file_share_app.Transfer.Pump.{
  Phase, hashing, top, parked, resumed, blocked, spaced, reading, encrypting, finished, completed,
  was_cancelled, Event, turn, pauses, resumes, cancels, buffer_low, Output, Config, Pump,
  EncryptionSession, chunk, read, send_sealed, take_turn, wake, drain, step, start, run,
}
use file_share_app.Transfer.Pump.Progress.{IsSound, Progress, run-IsSound, start-IsSound}

-- A run ends as cancelled only if it was cancelled.
abbrev OutcomeFits : Phase → Bool → Type 0
OutcomeFits (finished was_cancelled) cancelled = cancelled ≡ true
OutcomeFits _ cancelled = Unit

module _ (c : Crypto) (cfg : Config c) where
  take_turn-OutcomeFits :
      (p : Pump c) (phase : Phase) (buffered : ℕ)
      → p.phase ≡ phase
      → OutcomeFits phase p.cancelled
      → let q = take_turn c cfg buffered phase p in OutcomeFits q.phase q.cancelled
  unfolding take_turn
  take_turn-OutcomeFits p (reading i) buffered e h = reads cfg.encryption
    where
      reads :
          (enc : Option (EncryptionSession c))
          → let q = read c cfg enc i (chunk c cfg i) p in OutcomeFits q.phase q.cancelled
      reads none = tt
      reads (some session) = tt
  take_turn-OutcomeFits p (encrypting i buffer) buffered e h = sends cfg.encryption
    where
      sends :
          (enc : Option (EncryptionSession c))
          → let q = send_sealed c cfg enc i buffer p in OutcomeFits q.phase q.cancelled
      sends none = tt
      sends (some session) = tt
  take_turn-OutcomeFits p (hashing k upto) buffered e h = ground arith
  take_turn-OutcomeFits p _ buffered e h = ground arith

  step-OutcomeFits :
      (p : Pump c) (e : Event)
      → OutcomeFits p.phase p.cancelled
      → OutcomeFits (step c cfg p e).phase (step c cfg p e).cancelled
  unfolding step wake drain
  step-OutcomeFits p (turn buffered) h = take_turn-OutcomeFits p p.phase buffered refl h
  step-OutcomeFits p pauses h = h
  step-OutcomeFits p resumes h = ground arith
  step-OutcomeFits p cancels h = ground arith
  step-OutcomeFits p buffer_low h = ground arith

  run-OutcomeFits :
      (p : Pump c) (es : List Event)
      → OutcomeFits p.phase p.cancelled
      → OutcomeFits (run c cfg p es).phase (run c cfg p es).cancelled
  unfolding run
  run-OutcomeFits p [] h = h
  run-OutcomeFits p (e ∷ es) h = run-OutcomeFits (step c cfg p e) es (step-OutcomeFits p e h)

  -- The turns that a phase is from the end, at most.
  abbrev turns_left : Phase → ℕ
  turns_left (hashing k upto) = 5 * (cfg.total_chunks - upto) + 1 + (upto - k)
  turns_left (top i) = 5 * (cfg.total_chunks - i) + 1
  turns_left (resumed i) = 5 * (cfg.total_chunks - i)
  turns_left (spaced i) = 5 * (cfg.total_chunks - i) - 1
  turns_left (reading i) = 5 * (cfg.total_chunks - i) - 2
  turns_left (encrypting i buffer) = 5 * (cfg.total_chunks - i) - 3
  turns_left _ = 0

  -- Neither parked, blocked nor cancelled.
  abbrev IsMoving : Phase → Type 0
  IsMoving (parked i) = ⊥
  IsMoving (blocked i) = ⊥
  IsMoving (finished was_cancelled) = ⊥
  IsMoving (finished (completed checksum)) = Unit
  IsMoving (hashing k upto) = k < upto
  IsMoving (top i) = Unit
  IsMoving (resumed i) = i < cfg.total_chunks
  IsMoving (spaced i) = i < cfg.total_chunks
  IsMoving (reading i) = i < cfg.total_chunks
  IsMoving (encrypting i buffer) = i < cfg.total_chunks

  record IsRunning (p : Pump c) : Type 0 where
    going : p.paused ≡ false
    wanted : p.cancelled ≡ false
    moving : IsMoving p.phase

  abbrev HasCompleted : Phase → Type 0
  HasCompleted phase = (checksum : Utf16) × (phase ≡ finished (completed checksum))

  read-falls :
      (enc : Option (EncryptionSession c)) (p : Pump c) (i : ℕ)
      → i < cfg.total_chunks
      → IsRunning p
      → let q = read c cfg enc i (chunk c cfg i) p in
        IsRunning q × (turns_left q.phase < turns_left (reading i))
  unfolding read
  read-falls none p i lt r =
      (record { going = r.going; wanted = r.wanted; moving = tt }, omega arith)
  read-falls (some session) p i lt r =
      (record { going = r.going; wanted = r.wanted; moving = lt }, omega arith)

  send_sealed-falls :
      (enc : Option (EncryptionSession c)) (p : Pump c) (i : ℕ) (buffer : List ℕ)
      → i < cfg.total_chunks
      → IsRunning p
      → let q = send_sealed c cfg enc i buffer p in
        IsRunning q × (turns_left q.phase < turns_left (encrypting i buffer))
  unfolding send_sealed
  send_sealed-falls none p i buffer lt r =
      (record { going = r.going; wanted = r.wanted; moving = tt }, omega arith)
  send_sealed-falls (some session) p i buffer lt r =
      (record { going = r.going; wanted = r.wanted; moving = tt }, omega arith)

  take_turn-falls :
      (p : Pump c) (phase : Phase) (buffered : ℕ)
      → p.phase ≡ phase
      → buffered < buffered_amount_high_watermark
      → IsRunning p
      → IsMoving phase
      → (IsRunning (take_turn c cfg buffered phase p)
          × (turns_left (take_turn c cfg buffered phase p).phase < turns_left phase))
        ⊎ HasCompleted phase
  unfolding take_turn
  take_turn-falls p (reading i) buffered e room r m = inl (read-falls cfg.encryption p i m r)
  take_turn-falls p (encrypting i buffer) buffered e room r m =
      inl (send_sealed-falls cfg.encryption p i buffer m r)
  take_turn-falls p (finished (completed checksum)) buffered e room r m = inr (checksum, refl)
  take_turn-falls p (finished was_cancelled) buffered e room r m = absurd m
  take_turn-falls p (parked i) buffered e room r m = absurd m
  take_turn-falls p (blocked i) buffered e room r m = absurd m
  take_turn-falls p (hashing k upto) buffered e room r m = inl (ground arith)
  take_turn-falls p (top i) buffered e room r m = inl (ground arith)
  take_turn-falls p (resumed i) buffered e room r m = inl (ground arith)
  take_turn-falls p (spaced i) buffered e room r m = inl (ground arith)

  turn_completed :
      (p : Pump c) (buffered : ℕ) {checksum : Utf16}
      → p.phase ≡ finished (completed checksum)
      → step c cfg p (turn buffered) ≡ p
  unfolding step take_turn
  turn_completed p buffered e = rw (e, step, take_turn)

  run_completed :
      (p : Pump c) (rs : List ℕ)
      → HasCompleted p.phase
      → HasCompleted (run c cfg p (map turn rs)).phase
  unfolding run
  run_completed p [] h = h
  run_completed p (r ∷ rs) (checksum, e) =
      run_completed (step c cfg p (turn r)) rs
        (checksum, ap (λ q. q.phase) (turn_completed p r e) ∙ e)

  step-falls :
      (p : Pump c) (r : ℕ)
      → r < buffered_amount_high_watermark
      → IsRunning p
      → (IsRunning (step c cfg p (turn r))
          × (turns_left (step c cfg p (turn r)).phase < turns_left p.phase))
        ⊎ HasCompleted p.phase
  unfolding step
  step-falls p r room run = take_turn-falls p p.phase r refl room run run.moving

  run_turns :
      (p : Pump c) (rs : List ℕ)
      → All (λ r. r < buffered_amount_high_watermark) rs
      → IsRunning p
      → turns_left p.phase < length rs
      → HasCompleted (run c cfg p (map turn rs)).phase
  unfolding run
  run_turns p [] a r h = absurd (omega arith)
  run_turns p (x ∷ rs) (room, a) r h = elim (step-falls p x room r) [
    | inl (r', less) ↦ run_turns (step c cfg p (turn x)) rs a r' (omega arith)
    | inr done ↦ run_completed p (x ∷ rs) done
  ]

  moves_again :
      (from_chunk : ℕ) (phase : Phase) (h : c.Hasher) (sent : List Output)
      → Progress c cfg from_chunk phase h sent
      → OutcomeFits phase false
      → IsMoving (drain (wake phase))
        × (turns_left (drain (wake phase)) ≤ 5 * cfg.total_chunks + 1 + from_chunk)
  unfolding wake drain
  moves_again from_chunk (hashing k upto) h sent (lt, eu, _, _) f = (omega arith, omega arith)
  moves_again from_chunk (top i) h sent s f = (tt, omega arith)
  moves_again from_chunk (parked i) h sent (s, lt) f = (lt, omega arith)
  moves_again from_chunk (resumed i) h sent (s, lt) f = (lt, omega arith)
  moves_again from_chunk (blocked i) h sent (s, lt) f = (lt, omega arith)
  moves_again from_chunk (spaced i) h sent (s, lt) f = (lt, omega arith)
  moves_again from_chunk (reading i) h sent (s, lt) f = (lt, omega arith)
  moves_again from_chunk (encrypting i buffer) h sent (le, lt, _, _, _) f = (lt, omega arith)
  moves_again from_chunk (finished (completed checksum)) h sent s f = (tt, omega arith)
  moves_again from_chunk (finished was_cancelled) h sent s f = absurd (ground arith)

  resumed-IsRunning :
      (from_chunk : ℕ) (p : Pump c)
      → IsSound c cfg from_chunk p
      → OutcomeFits p.phase p.cancelled
      → p.cancelled ≡ false
      → let q = step c cfg (step c cfg p resumes) buffer_low in
        IsRunning q × (turns_left q.phase ≤ 5 * cfg.total_chunks + 1 + from_chunk)
  unfolding step
  resumed-IsRunning from_chunk p s f u =
      let (m, less) =
        moves_again from_chunk p.phase p.hasher p.sent s (subst (OutcomeFits p.phase) u f) in
      (record { going = refl; wanted = u; moving = m }, less)

  -- Whatever has happened to `run(from_chunk)` so far, short of a cancellation: once it is resumed
  -- and the buffer drains, and the buffer then stays below the high watermark, it has completed
  -- after more than 5 * total_chunks + 1 + from_chunk turns.
  pub run_finishes :
      (from_chunk : ℕ) (es : List Event) (rs : List ℕ)
      → (run c cfg (start c from_chunk) es).cancelled ≡ false
      → All (λ r. r < buffered_amount_high_watermark) rs
      → 5 * cfg.total_chunks + 1 + from_chunk < length rs
      → (checksum : Utf16) × ((run c cfg
            (run c cfg (start c from_chunk) es)
            (resumes ∷ buffer_low ∷ map turn rs)).phase
          ≡ finished (completed checksum))
  unfolding run start
  run_finishes from_chunk es rs u a h =
      let p = run c cfg (start c from_chunk) es in
      let (r, less) =
        resumed-IsRunning from_chunk p
          (run-IsSound c cfg from_chunk (start c from_chunk) es (start-IsSound c cfg from_chunk))
          (run-OutcomeFits (start c from_chunk) es (start_fits (ltb 0 from_chunk))) u in
      run_turns (step c cfg (step c cfg p resumes) buffer_low) rs a r (omega arith)
    where
      start_fits :
          (fresh : Bool)
          → OutcomeFits (if fresh then hashing 0 from_chunk else top from_chunk) false
      start_fits true = tt
      start_fits false = tt
