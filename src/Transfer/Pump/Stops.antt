-- ===== src/Transfer/Pump/Stops.antt =====
-- What stops a pump: a cancellation, a pause, a full buffer. At most the chunk that is under way
-- still goes out.
use file_share_app.Base.{
  ℕ, suc, ◌+◌, ◌≤◌, ◌≡◌, ◌≢◌, refl, true, List, [], ◌∷◌, ◌++◌, Option, none, some, arith, All,
  Utf16,
}
use file_share_app.Shared.Constants.{buffered_amount_high_watermark}
use file_share_app.Transfer.Crypto.{Crypto}
use file_share_app.Transfer.Pump.{
  Phase, hashing, top, parked, resumed, blocked, spaced, reading, encrypting, finished, Event, turn,
  pauses, resumes, cancels, buffer_low, Output, meta, binary, progress, Config, Pump,
  EncryptionSession, chunk, announce, read, send_sealed, take_turn, step, run,
}

-- The chunks announced.
pub metas : List Output → ℕ
metas [] = 0
metas (meta i size iv ∷ rest) = suc (metas rest)
metas (binary payload ∷ rest) = metas rest
metas (progress size i ∷ rest) = metas rest

metas-append : (xs ys : List Output) → metas (xs ++ ys) ≡ metas xs + metas ys
unfolding metas
metas-append [] ys = omega arith
metas-append (meta i size iv ∷ xs) ys = omega (arith, metas-append xs ys)
metas-append (binary payload ∷ xs) ys = metas-append xs ys
metas-append (progress size i ∷ xs) ys = metas-append xs ys

-- The chunks that may still go out after a cancellation, during a pause, while the buffer is full.
abbrev pub after_cancel : Phase → ℕ
after_cancel (reading i) = 1
after_cancel (encrypting i buffer) = 1
after_cancel _ = 0

abbrev pub while_full : Phase → ℕ
while_full (spaced i) = 1
while_full phase = after_cancel phase

abbrev pub while_paused : Phase → ℕ
while_paused (resumed i) = 1
while_paused (blocked i) = 1
while_paused phase = while_full phase

module _ (c : Crypto) (cfg : Config c) where
  metas-announce :
      (sent : List Output) (i : ℕ) (payload : List ℕ) (iv : Option Utf16)
      → metas (sent ++ announce c cfg i payload iv) ≡ metas sent + 1
  unfolding announce metas
  metas-announce sent i payload iv = metas-append sent (announce c cfg i payload iv)

  -- The two turns that may send.
  metas-read :
      (enc : Option (EncryptionSession c)) (p : Pump c) (i : ℕ)
      → let q = read c cfg enc i (chunk c cfg i) p in
        (metas q.sent + while_paused q.phase ≤ metas p.sent + 1)
        × (metas q.sent + while_full q.phase ≤ metas p.sent + 1)
        × (metas q.sent + after_cancel q.phase ≤ metas p.sent + 1)
        × (q.cancelled ≡ p.cancelled)
        × (q.paused ≡ p.paused)
  unfolding read
  metas-read none p i =
      let e = metas-announce p.sent i (chunk c cfg i) none in
      (omega (arith, e), omega (arith, e), omega (arith, e), refl, refl)
  metas-read (some session) p i = (omega arith, omega arith, omega arith, refl, refl)

  metas-send_sealed :
      (enc : Option (EncryptionSession c)) (p : Pump c) (i : ℕ) (buffer : List ℕ)
      → let q = send_sealed c cfg enc i buffer p in
        (metas q.sent + while_paused q.phase ≤ metas p.sent + 1)
        × (metas q.sent + while_full q.phase ≤ metas p.sent + 1)
        × (metas q.sent + after_cancel q.phase ≤ metas p.sent + 1)
        × (q.cancelled ≡ p.cancelled)
        × (q.paused ≡ p.paused)
  unfolding send_sealed
  metas-send_sealed none p i buffer =
      let e = metas-announce p.sent i buffer none in
      (omega (arith, e), omega (arith, e), omega (arith, e), refl, refl)
  metas-send_sealed (some session) p i buffer =
      let e = metas-announce p.sent i in
      (omega (arith, e), omega (arith, e), omega (arith, e), refl, refl)

  -- A bound that each step keeps bounds a run.
  module _ (budget : Phase → ℕ) (Halted : Pump c → Type 0) (Allowed : Event → Type 0)
      (keeps : (p : Pump c) (e : Event)
        → Allowed e
        → Halted p
        → (metas (step c cfg p e).sent + budget (step c cfg p e).phase
            ≤ metas p.sent + budget p.phase)
          × Halted (step c cfg p e)) where
    run_bounded :
        (p : Pump c) (es : List Event)
        → All Allowed es
        → Halted p
        → metas (run c cfg p es).sent + budget (run c cfg p es).phase
          ≤ metas p.sent + budget p.phase
    unfolding run
    run_bounded p [] a h = omega arith
    run_bounded p (e ∷ es) (a, rest) h =
        let (less, h') = keeps p e a h in omega (arith, run_bounded (step c cfg p e) es rest h')

  take_turn_cancelled :
      (p : Pump c) (phase : Phase) (buffered : ℕ)
      → p.phase ≡ phase
      → p.cancelled ≡ true
      → let q = take_turn c cfg buffered phase p in
        (metas q.sent + after_cancel q.phase ≤ metas p.sent + after_cancel phase)
        × (q.cancelled ≡ true)
  unfolding take_turn
  take_turn_cancelled p (reading i) buffered e h = ground (arith, metas-read cfg.encryption p i)
  take_turn_cancelled p (encrypting i buffer) buffered e h =
      ground (arith, metas-send_sealed cfg.encryption p i buffer)
  take_turn_cancelled p (hashing k upto) buffered e h = ground arith
  take_turn_cancelled p (top i) buffered e h = ground arith
  take_turn_cancelled p (resumed i) buffered e h = ground arith
  take_turn_cancelled p (spaced i) buffered e h = ground arith
  take_turn_cancelled p (parked i) buffered e h = ground arith
  take_turn_cancelled p (blocked i) buffered e h = ground arith
  take_turn_cancelled p (finished o) buffered e h = ground arith

  step_cancelled :
      (p : Pump c) (e : Event)
      → Unit {0}
      → p.cancelled ≡ true
      → (metas (step c cfg p e).sent + after_cancel (step c cfg p e).phase
          ≤ metas p.sent + after_cancel p.phase)
        × ((step c cfg p e).cancelled ≡ true)
  unfolding step
  step_cancelled p (turn buffered) a h = take_turn_cancelled p p.phase buffered refl h
  step_cancelled p pauses a h = ground arith
  step_cancelled p resumes a h = ground arith
  step_cancelled p cancels a h = ground arith
  step_cancelled p buffer_low a h = ground arith

  any_event : (es : List Event) → All (λ e. Unit {0}) es
  any_event [] = tt
  any_event (e ∷ es) = (tt, any_event es)

  cancel_now :
      (p : Pump c)
      → ((step c cfg p cancels).cancelled ≡ true)
        × (metas (step c cfg p cancels).sent + after_cancel (step c cfg p cancels).phase
            ≤ metas p.sent + after_cancel p.phase)
  unfolding step
  cancel_now p = ground arith

  -- After `cancel()` at most one more chunk is announced, whatever follows, and none unless the
  -- pump was reading or encrypting it at that moment.
  pub run-after_cancel :
      (p : Pump c) (es : List Event)
      → metas (run c cfg (step c cfg p cancels) es).sent ≤ metas p.sent + after_cancel p.phase
  run-after_cancel p es = omega (
    arith,
    run_bounded after_cancel (λ q. q.cancelled ≡ true) (λ e. Unit) step_cancelled
        (step c cfg p cancels) es (any_event es) (cancel_now p).0,
    (cancel_now p).1,
  )

  take_turn_paused :
      (p : Pump c) (phase : Phase) (buffered : ℕ)
      → p.phase ≡ phase
      → p.paused ≡ true
      → let q = take_turn c cfg buffered phase p in
        (metas q.sent + while_paused q.phase ≤ metas p.sent + while_paused phase)
        × (q.paused ≡ true)
  unfolding take_turn
  take_turn_paused p (reading i) buffered e h = ground (arith, metas-read cfg.encryption p i)
  take_turn_paused p (encrypting i buffer) buffered e h =
      ground (arith, metas-send_sealed cfg.encryption p i buffer)
  take_turn_paused p (hashing k upto) buffered e h = ground arith
  take_turn_paused p _ buffered e h = ground arith

  -- The events while a pause lasts.
  abbrev pub KeepsPause : Event → Type 0
  KeepsPause e = (e ≢ resumes) × (e ≢ cancels)

  step_paused :
      (p : Pump c) (e : Event)
      → KeepsPause e
      → p.paused ≡ true
      → (metas (step c cfg p e).sent + while_paused (step c cfg p e).phase
          ≤ metas p.sent + while_paused p.phase)
        × ((step c cfg p e).paused ≡ true)
  unfolding step
  step_paused p (turn buffered) a h = take_turn_paused p p.phase buffered refl h
  step_paused p pauses a h = ground arith
  step_paused p resumes a h = absurd (a.0 refl)
  step_paused p cancels a h = absurd (a.1 refl)
  step_paused p buffer_low a h = ground arith

  pause_now :
      (p : Pump c)
      → ((step c cfg p pauses).paused ≡ true)
        × (metas (step c cfg p pauses).sent + while_paused (step c cfg p pauses).phase
            ≡ metas p.sent + while_paused p.phase)
  unfolding step
  pause_now p = (refl, refl)

  -- From `pause()` on, until `resume()` or `cancel()`, at most one more chunk is announced, and
  -- none unless the pump was already past `waitForResume` in a round.
  pub run-while_paused :
      (p : Pump c) (es : List Event)
      → All KeepsPause es
      → metas (run c cfg (step c cfg p pauses) es).sent ≤ metas p.sent + while_paused p.phase
  run-while_paused p es a = omega (
    arith,
    run_bounded while_paused (λ q. q.paused ≡ true) KeepsPause step_paused (step c cfg p pauses) es
        a (pause_now p).0,
    (pause_now p).1,
  )

  -- The events while the channel's buffer stays at or above the high watermark.
  abbrev pub KeepsFull : Event → Type 0
  KeepsFull (turn buffered) = buffered_amount_high_watermark ≤ buffered
  KeepsFull buffer_low = ⊥
  KeepsFull _ = Unit

  take_turn_full :
      (p : Pump c) (phase : Phase) (buffered : ℕ)
      → p.phase ≡ phase
      → buffered_amount_high_watermark ≤ buffered
      → let q = take_turn c cfg buffered phase p in
        metas q.sent + while_full q.phase ≤ metas p.sent + while_full phase
  unfolding take_turn
  take_turn_full p (reading i) buffered e h = ground (arith, metas-read cfg.encryption p i)
  take_turn_full p (encrypting i buffer) buffered e h =
      ground (arith, metas-send_sealed cfg.encryption p i buffer)
  take_turn_full p (hashing k upto) buffered e h = ground arith
  take_turn_full p _ buffered e h = ground arith

  step_full :
      (p : Pump c) (e : Event)
      → KeepsFull e
      → Unit {0}
      → (metas (step c cfg p e).sent + while_full (step c cfg p e).phase
          ≤ metas p.sent + while_full p.phase)
        × Unit {0}
  unfolding step
  step_full p (turn buffered) a h = (take_turn_full p p.phase buffered refl a, tt)
  step_full p pauses a h = ground arith
  step_full p resumes a h = ground arith
  step_full p cancels a h = ground arith
  step_full p buffer_low a h = absurd a

  -- While every reading of `bufferedAmount` is at or above the high watermark and no
  -- `bufferedamountlow` comes, at most one more chunk is announced, and none unless the pump was
  -- already past `waitForBufferSpace` in a round.
  pub run-while_full :
      (p : Pump c) (es : List Event)
      → All KeepsFull es
      → metas (run c cfg p es).sent ≤ metas p.sent + while_full p.phase
  run-while_full p es a =
      omega (arith, run_bounded while_full (λ q. Unit) KeepsFull step_full p es a tt)
