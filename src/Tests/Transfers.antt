-- ===== src/Tests/Transfers.antt =====
-- Transfers of a small file.
use file_share_app.Base.{
  ℕ, zero, suc, ◌+◌, map, units, utf16_beq, ◌≤◌, ◌≡◌, refl, List, [], ◌∷◌, none, some, Utf16,
  utf16_eq, take, arith, false,
}
use file_share_app.Base.Dict.{get, set}
use file_share_app.Transfer.ChunkSize.{total_chunks}
use file_share_app.Transfer.Sink.FileSystem.{file_system_sink}
use file_share_app.Transfer.Pump.{
  Config, Event, turn, pauses, resumes, cancels, buffer_low, completed, was_cancelled, finished,
  start, step, run, chunk, announce, sealed, Pump,
}
use file_share_app.Transfer.ChunkReceiver.{
  Receiver, new, handle_chunk, open_payload, contains, resume_from_chunk,
}
use file_share_app.Transfer.ChunkReceiver.Resume.{resume_from_chunk_least}
use file_share_app.Transfer.Pump.Stops.{
  metas, after_cancel, while_full, while_paused, run-after_cancel, run-while_paused, run-while_full,
}
use file_share_app.Transfer.Delivery.{Inbox, frames, deliver, handle_frame}
use file_share_app.Transfer.Sink.{ChunkSink}
use file_share_app.Transfer.Crypto.Iv.{iv_for_chunk}
use file_share_app.Transfer.Pump.Plan.{outputs_from, hashed, bytes_before}
use file_share_app.Transfer.Pump.Progress.{run-completed, file_checksum}
use file_share_app.Transfer.Pump.Finish.{run_finishes}
use file_share_app.Transfer.Delivery.Chunk.{IsPlanned}
use file_share_app.Transfer.Delivery.Whole.{Arrived, delivered_whole, resumed_whole}
use file_share_app.Transfer.Delivery.Run.{HasChunks}
use file_share_app.Tests.Toys.{toy_crypto, toy_stream}

transfer : Unit {0}
unfolding start step run chunk announce sealed get set new handle_chunk open_payload iv_for_chunk
    frames deliver handle_frame utf16_beq
transfer = tt

abbrev pub config : Config toy_crypto
config = record {
  file = 10 ∷ 20 ∷ 30 ∷ 40 ∷ 50 ∷ [];
  file_index = 0;
  chunk_size = 2;
  total_chunks = 3;
  encryption = some (record { key = 7; iv_salt = 1 ∷ 2 ∷ 3 ∷ 4 ∷ [] });
}

abbrev pub readings : ℕ → List ℕ
readings zero = []
readings (suc n) = 0 ∷ readings n

abbrev pub turns : ℕ → List Event
turns zero = []
turns (suc n) = turn 0 ∷ turns n

-- The sum of the file is 150, in hexadecimal 96.
abbrev pub checksum : Utf16
checksum = 9 ∷ 6 ∷ []

abbrev pub file_id : Utf16
file_id = units "f1"

abbrev pub sink : ChunkSink
sink = file_system_sink toy_stream

-- A receiver that accepted the offer and has nothing yet.
abbrev pub fresh : Receiver toy_crypto sink
fresh = new toy_crypto sink (record { total_chunks = 3; chunk_size = 2 }) config.encryption []

abbrev pub inbox : Inbox toy_crypto sink
inbox = record { pending = none; receivers = set file_id fresh [] }

run_to_the_end :
    (run toy_crypto config (start toy_crypto 0) (turns 16)).phase ≡ finished (completed checksum)
unfolding transfer
run_to_the_end = refl

-- Paused in the second round, resumed, and cut off by a full buffer until it drains.
pub interrupted : List Event
interrupted =
    turn 0
    ∷ turn 0
    ∷ turn 0
    ∷ turn 0
    ∷ turn 0
    ∷ pauses
    ∷ turn 0
    ∷ turn 0
    ∷ resumes
    ∷ turn 8388608
    ∷ turn 0
    ∷ buffer_low
    ∷ turns 9

pub run-interrupted :
    (run toy_crypto config (start toy_crypto 0) interrupted).phase ≡ finished (completed checksum)
unfolding transfer interrupted
run-interrupted = refl

run_cancelled :
    (run toy_crypto config (start toy_crypto 0) (turn 0 ∷ cancels ∷ turns 3)).phase
    ≡ finished was_cancelled
unfolding transfer
run_cancelled = refl

pub config-IsPlanned : IsPlanned toy_crypto sink config
unfolding total_chunks
config-IsPlanned = record { positive = omega arith; counted = refl; salted = omega arith }

pub inbox-HasChunks : HasChunks toy_crypto sink config file_id 0 inbox
unfolding transfer hashed bytes_before contains
inbox-HasChunks = record {
  receiver = fresh;
  listed = refl;
  holds = record {
    hasher = refl;
    contents = refl;
    below = tt;
    unfinished = refl;
    chunk_size = refl;
    total_chunks = refl;
    encryption = refl;
    received = λ m. ground arith;
    count = refl;
  };
}

run-completed_example :
    (checksum ≡ file_checksum toy_crypto config)
    × ((run toy_crypto config (start toy_crypto 0) interrupted).sent
        ≡ outputs_from toy_crypto config 0 3)
run-completed_example =
    run-completed toy_crypto config 0 interrupted checksum (omega arith) (omega arith)
      run-interrupted

run_finishes_example :
    (sum : Utf16) × ((run toy_crypto config
        (run toy_crypto config (start toy_crypto 0) (turn 0 ∷ pauses ∷ []))
        (resumes ∷ buffer_low ∷ map turn (readings 17))).phase
      ≡ finished (completed sum))
unfolding transfer
run_finishes_example =
    run_finishes toy_crypto config 0 (turn 0 ∷ pauses ∷ []) (readings 17) refl (omega arith)
      (omega arith)

delivered_whole_example :
    (checksum ≡ file_checksum toy_crypto config)
    × Arrived toy_crypto sink config file_id (
        deliver toy_crypto sink inbox
          (frames file_id (run toy_crypto config (start toy_crypto 0) interrupted).sent))
delivered_whole_example =
    delivered_whole toy_crypto sink config file_id inbox 0 0 interrupted checksum config-IsPlanned
      inbox-HasChunks (omega arith) (omega arith) run-interrupted

-- The first run breaks after one chunk and the announcement of the second.
abbrev first_run : List Event
first_run = turns 10

abbrev after_break : Receiver toy_crypto sink
after_break = record fresh { hasher = 10 ∷ 20 ∷ []; received = 0 ∷ []; sink = 10 ∷ 20 ∷ [] }

broken_receiver :
    get file_id
      (deliver toy_crypto sink inbox (
        take 3
          (frames file_id (run toy_crypto config (start toy_crypto 0) first_run).sent))).receivers
    ≡ some after_break
unfolding transfer
broken_receiver = refl

second_run :
    (run toy_crypto config
      (start toy_crypto (resume_from_chunk toy_crypto sink after_break))
      (turns 12)).phase
    ≡ finished (completed checksum)
unfolding transfer resume_from_chunk
second_run = refl

resumed_whole_example :
    (checksum ≡ file_checksum toy_crypto config)
    × Arrived toy_crypto sink config file_id (
        deliver toy_crypto sink
          (deliver toy_crypto sink inbox
            (take 3 (frames file_id (run toy_crypto config (start toy_crypto 0) first_run).sent)))
          (frames file_id
            (run toy_crypto config
              (start toy_crypto (resume_from_chunk toy_crypto sink after_break))
              (turns 12)).sent))
resumed_whole_example =
    resumed_whole toy_crypto sink config file_id inbox first_run (turns 12) 3 after_break checksum
      config-IsPlanned inbox-HasChunks broken_receiver second_run

resume_from_chunk_least_example :
    (contains (0 ∷ []) (resume_from_chunk toy_crypto sink after_break) ≡ false)
    × (resume_from_chunk toy_crypto sink after_break ≤ 1)
unfolding contains
resume_from_chunk_least_example = resume_from_chunk_least toy_crypto sink after_break 1 refl

-- A pump in the middle of its second chunk.
abbrev midway : Pump toy_crypto
midway = run toy_crypto config (start toy_crypto 0) (turns 8)

run-after_cancel_example :
    metas (run toy_crypto config (step toy_crypto config midway cancels) (turns 9)).sent
    ≤ metas midway.sent + after_cancel midway.phase
run-after_cancel_example = run-after_cancel toy_crypto config midway (turns 9)

run-while_paused_example :
    metas
      (run toy_crypto config (step toy_crypto config midway pauses) (turn 0 ∷ buffer_low ∷ [])).sent
    ≤ metas midway.sent + while_paused midway.phase
run-while_paused_example =
    run-while_paused toy_crypto config midway (turn 0 ∷ buffer_low ∷ [])
      (((λ e. cc), λ e. cc), (((λ e. cc), λ e. cc), tt))

run-while_full_example :
    metas (run toy_crypto config midway (turn 9000000 ∷ resumes ∷ turn 8388608 ∷ [])).sent
    ≤ metas midway.sent + while_full midway.phase
run-while_full_example =
    run-while_full toy_crypto config midway (turn 9000000 ∷ resumes ∷ turn 8388608 ∷ [])
      (omega arith)
