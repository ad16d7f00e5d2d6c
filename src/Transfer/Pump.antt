-- ===== src/Transfer/Pump.antt =====
-- client/src/services/transfer/chunkPump.ts. `run` is an asynchronous loop: between two of its
-- turns the session may pause, resume or cancel the pump, and the channel may report a drained
-- buffer. A turn is what the loop does from one `await` to the next, given the channel's
-- `bufferedAmount`. The callbacks are the outputs, the oldest first. The turn that ends a round is
-- kept apart from the next round's test, so a callback that cancels is an event between the two.
pub mod Plan
pub mod Progress
pub mod Stops
pub mod Finish
use file_share_app.Base.{
  ℕ, suc, ◌+◌, ◌-◌, ◌*◌, min, Bool, true, false, List, [], ◌∷◌, ◌++◌, length, take, drop, Option,
  none, some, ltb, Utf16, if◌then◌else◌,
}
use file_share_app.Shared.Constants.{buffered_amount_high_watermark}
use file_share_app.Transfer.Crypto.{Crypto}
use file_share_app.Transfer.Crypto.Iv.{iv_for_chunk}

-- `file.slice(start, end)`, both ends clamped to the file.
abbrev pub slice : List ℕ → ℕ → ℕ → List ℕ
slice content start end = take (end - start) (drop start content)

pub data Output : Type 0 where
  meta : ℕ → ℕ → Option Utf16 → Output
  binary : List ℕ → Output
  progress : ℕ → ℕ → Output

pub data Outcome : Type 0 where
  completed : Utf16 → Outcome
  was_cancelled : Outcome

-- Where the loop waits: hashing what a resumed transfer already sent; before round `i`; parked in
-- `waitForResume`, and past it; blocked in `waitForBufferSpace`, and past it; reading the slice;
-- encrypting the buffer; returned.
pub data Phase : Type 0 where
  hashing : ℕ → ℕ → Phase
  top parked resumed blocked spaced reading : ℕ → Phase
  encrypting : ℕ → List ℕ → Phase
  finished : Outcome → Phase

pub data Event : Type 0 where
  turn : ℕ → Event
  pauses resumes cancels buffer_low : Event

-- `resumeWaiters.forEach((w) => w())`
wake : Phase → Phase
wake (parked i) = resumed i
wake phase = phase

-- The handler of `bufferedamountlow`.
drain : Phase → Phase
drain (blocked i) = spaced i
drain phase = phase

module _ (c : Crypto) where
  open c use {Hasher, create, update, digest, bytes_to_hex, Key, encrypt}

  pub record EncryptionSession : Type 0 where
    pub key : Key
    pub iv_salt : List ℕ

  pub record Config : Type 0 where
    pub file : List ℕ
    pub file_index : ℕ
    pub chunk_size : ℕ
    pub total_chunks : ℕ
    pub encryption : Option EncryptionSession

  pub record Pump : Type 0 where
    pub paused : Bool
    pub cancelled : Bool
    pub phase : Phase
    pub hasher : Hasher
    pub sent : List Output

  -- The bytes of round `i`.
  unfoldable pub chunk : Config → ℕ → List ℕ
  chunk cfg i =
      slice cfg.file (i * cfg.chunk_size)
        (min (i * cfg.chunk_size + cfg.chunk_size) (length cfg.file))

  -- `sendMeta`, `sendBinary`, `onProgress`.
  unfoldable pub announce : Config → ℕ → List ℕ → Option Utf16 → List Output
  announce cfg i payload iv_hex =
      meta i (length payload) iv_hex
      ∷ binary payload
      ∷ progress (min (i * cfg.chunk_size + cfg.chunk_size) (length cfg.file) - i * cfg.chunk_size)
          i
      ∷ []

  -- `encryptChunk`, and the IV in hexadecimal.
  unfoldable pub sealed : EncryptionSession → ℕ → ℕ → List ℕ → List ℕ × Utf16
  sealed session file_index i buffer =
      let iv = iv_for_chunk session.iv_salt file_index i in
      (encrypt session.key iv buffer, bytes_to_hex iv)

  send_plain : Config → ℕ → List ℕ → Pump → Pump
  send_plain cfg i buffer p = record p {
    phase = top (suc i);
    sent = p.sent ++ announce cfg i buffer none;
  }

  send_sealed : Config → Option EncryptionSession → ℕ → List ℕ → Pump → Pump
  unfolding send_plain
  send_sealed cfg none i buffer p = send_plain cfg i buffer p
  send_sealed cfg (some session) i buffer p =
      let (payload, iv_hex) = sealed session cfg.file_index i buffer in
      record p { phase = top (suc i); sent = p.sent ++ announce cfg i payload (some iv_hex) }

  read : Config → Option EncryptionSession → ℕ → List ℕ → Pump → Pump
  unfolding send_plain
  read cfg none i buffer p = send_plain cfg i buffer (record p { hasher = update p.hasher buffer })
  read cfg (some session) i buffer p = record p {
    hasher = update p.hasher buffer;
    phase = encrypting i buffer;
  }

  take_turn : Config → ℕ → Phase → Pump → Pump
  unfolding read send_sealed
  take_turn cfg buffered (hashing k upto) p = record p {
    hasher = update p.hasher (chunk cfg k);
    phase = if ltb (suc k) upto then hashing (suc k) upto else top upto;
  }
  take_turn cfg buffered (top i) p =
      if ltb i cfg.total_chunks
      then if p.cancelled
        then record p { phase = finished was_cancelled }
        else record p { phase = if p.paused then parked i else resumed i }
      else record p { phase = finished (completed (bytes_to_hex (digest p.hasher))) }
  take_turn cfg buffered (parked i) p = p
  take_turn cfg buffered (resumed i) p =
      if p.cancelled then record p { phase = finished was_cancelled } else record p {
        phase = if ltb buffered buffered_amount_high_watermark then spaced i else blocked i;
      }
  take_turn cfg buffered (blocked i) p = p
  take_turn cfg buffered (spaced i) p = record p {
    phase = if p.cancelled then finished was_cancelled else reading i;
  }
  take_turn cfg buffered (reading i) p = read cfg cfg.encryption i (chunk cfg i) p
  take_turn cfg buffered (encrypting i buffer) p = send_sealed cfg cfg.encryption i buffer p
  take_turn cfg buffered (finished outcome) p = p

  unfoldable pub step : Config → Pump → Event → Pump
  unfolding take_turn wake drain
  step cfg p (turn buffered) = take_turn cfg buffered p.phase p
  step cfg p pauses = record p { paused = true }
  step cfg p resumes = record p { paused = false; phase = wake p.phase }
  step cfg p cancels = record p { cancelled = true; paused = false; phase = wake p.phase }
  step cfg p buffer_low = record p { phase = drain p.phase }

  -- A new pump on which `run(fromChunk)` was called.
  unfoldable pub start : ℕ → Pump
  start from_chunk = record {
    paused = false;
    cancelled = false;
    phase = if ltb 0 from_chunk then hashing 0 from_chunk else top from_chunk;
    hasher = create;
    sent = [];
  }

  unfoldable pub run : Config → Pump → List Event → Pump
  run cfg p [] = p
  run cfg p (e ∷ es) = run cfg (step cfg p e) es
