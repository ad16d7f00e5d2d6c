-- ===== src/Tests/Limits.antt =====
-- The limiter, the state machine, chunk sizes, IVs and checksums at concrete inputs.
use file_share_app.Base.{
  ℕ, ◌+◌, ◌*◌, ◌≤◌, ◌<◌, ◌≡◌, ◌↔◌, refl, inl, inr, true, false, List, [], ◌∷◌, none, some, Utf16,
  utf16_eq, utf16_beq, units, arith, All, length, leb,
}
use file_share_app.Base.Dict.{get, set}
use file_share_app.Server.RateLimiter.{check}
use file_share_app.Server.RateLimiter.Window.{
  History, checks, sweeps, after, attempts, allowed, check-attempts, allowed-le-max,
}
use file_share_app.Transfer.StateMachine.{
  TransferState, idle, preparing, waiting_for_peer, connecting, transferring, failed,
  can_transition, transition, TransferState-discrete,
}
use file_share_app.Transfer.StateMachine.Paths.{
  run, run_of_IsTerminal, Walk, run-Walk, required, Entered, Walk-required,
}
use file_share_app.Transfer.ChunkSize.{total_chunks}
use file_share_app.Transfer.ChunkSize.Ladder.{total_chunks_covers}
use file_share_app.Transfer.Crypto.Iv.{iv_for_chunk-injective}
use file_share_app.Transfer.ChunkReceiver.{checksums_match}
use file_share_app.Transfer.ChunkReceiver.Checksums.{checksums_match_iff}
use file_share_app.Shared.Json.{string}
use file_share_app.Shared.FileNames.{sanitize_file_name, safe_file_name}
use file_share_app.Shared.FileNames.Sanitized.{IsPlain, sanitize_file_name-IsPlain}
use file_share_app.Client.Storage.{HistoryEntry, HistoryStatus, sent, add, list}
use file_share_app.Client.Storage.History.{NewestFirst}
use file_share_app.Client.HistoryStore
use file_share_app.Client.HistoryStore.{HistoryStore, refresh, Call, adds, clears}
use file_share_app.Client.HistoryStore.Cached.{run-cached}
use file_share_app.Client.QrPayload.{build_qr_payload, parse_qr_payload, parsed}
use file_share_app.Client.QrPayload.RoundTrip.{parse-build_qr_payload}
use file_share_app.Client.Signaling
use file_share_app.Client.Signaling.{
  Event, connects, timer_fires, opened, socket_closed, max_reconnect_attempts,
}
use file_share_app.Client.Signaling.Attempts.{timers, run-timers}
use file_share_app.Tests.Toys.{toy_crypto}

-- The newest call first: "a" calls at 0, 1 and 2, "b" at 2, and the sweep comes at 5.
abbrev history : History
history =
    (5, sweeps)
    ∷ (2, checks (units "b"))
    ∷ (2, checks (units "a"))
    ∷ (1, checks (units "a"))
    ∷ (0, checks (units "a"))
    ∷ []

check-attempts_example :
    (check (after 10 2 history) (units "a") 6).1 ≡ leb (attempts 10 (units "a") 6 history + 1) 2
check-attempts_example = check-attempts 10 2 (units "a") 6 history (omega arith)

allowed-le-max_example : allowed 10 2 (units "a") 6 history ≤ 2
allowed-le-max_example = allowed-le-max 10 2 (units "a") 6 history (omega arith)

-- As in rateLimiter.test.ts: the third call in the window is refused.
third_call_refused :
    (check (after 10000 2 ((1, checks (units "a")) ∷ (0, checks (units "a")) ∷ [])) (units "a") 2).1
    ≡ false
unfolding check after get set utf16_beq
third_call_refused = refl

run_of_IsTerminal_example : run failed [] (idle ∷ preparing ∷ []) ≡ (failed, [])
run_of_IsTerminal_example =
    run_of_IsTerminal failed [] (idle ∷ preparing ∷ []) (inr (inr (inl refl)))

abbrev requests : List TransferState
requests = preparing ∷ transferring ∷ waiting_for_peer ∷ connecting ∷ []

run-Walk_example : Walk idle (run idle [] requests).1 (run idle [] requests).0
run-Walk_example = run-Walk idle idle [] requests Walk.here

-- The request for `transferring` is refused.
run_example : (run idle [] requests).0 ≡ connecting
unfolding run transition TransferState-discrete
run_example = refl

Walk-required_example :
    All (Entered (record { to = preparing; previous = idle } ∷ [])) (required preparing)
unfolding can_transition TransferState-discrete
Walk-required_example = Walk-required (Walk.then Walk.here preparing refl)

total_chunks_covers_example :
    (0 < total_chunks 10000 1024) × (10000 ≤ total_chunks 10000 1024 * 1024)
total_chunks_covers_example = total_chunks_covers 10000 1024 (omega arith)

abbrev salt : List ℕ
salt = 1 ∷ 2 ∷ 3 ∷ 4 ∷ []

iv_for_chunk-injective_example : (◌≡◌ {A = ℕ} 2 2) × (◌≡◌ {A = ℕ} 70000 70000)
iv_for_chunk-injective_example =
    iv_for_chunk-injective salt 2 70000 2 70000 (omega arith) (omega arith) (omega arith)
      (omega arith) refl

abbrev ours : Utf16
ours = 9 ∷ 6 ∷ []

abbrev theirs : Utf16
theirs = 9 ∷ 7 ∷ []

checksums_match_iff_example :
    (checksums_match toy_crypto ours theirs ≡ some true)
    ↔ ((length ours ≡ length theirs) × (◌≡◌ {A = List ℕ} (150 ∷ []) (151 ∷ [])))
checksums_match_iff_example =
    checksums_match_iff toy_crypto ours theirs (150 ∷ []) (151 ∷ []) refl refl (omega arith)
      (omega arith)

-- A connection that fails five times before it opens.
abbrev failures : List Event
failures =
    connects
    ∷ socket_closed 0
    ∷ timer_fires
    ∷ socket_closed 1
    ∷ timer_fires
    ∷ socket_closed 2
    ∷ timer_fires
    ∷ opened 3
    ∷ socket_closed 3
    ∷ []

-- Every further attempt fails.
abbrev more_failures : List Event
more_failures =
    timer_fires
    ∷ socket_closed 4
    ∷ timer_fires
    ∷ socket_closed 5
    ∷ timer_fires
    ∷ socket_closed 6
    ∷ timer_fires
    ∷ socket_closed 7
    ∷ timer_fires
    ∷ socket_closed 8
    ∷ timer_fires
    ∷ socket_closed 9
    ∷ []

run-timers_example :
    ((Signaling.run (Signaling.run Signaling.new failures).0 more_failures).0.reconnect_attempts
      ≡ (Signaling.run Signaling.new failures).0.reconnect_attempts
        + timers (Signaling.run (Signaling.run Signaling.new failures).0 more_failures).1)
    × ((Signaling.run Signaling.new failures).0.reconnect_attempts
          + timers (Signaling.run (Signaling.run Signaling.new failures).0 more_failures).1
        ≤ 6)
run-timers_example =
    run-timers failures more_failures
      (tt, (tt, (tt, (tt, (tt, (tt, (tt, (tt, (tt, (tt, (tt, (tt, tt))))))))))))

-- The sixth failure gives up.
five_timers : timers (Signaling.run (Signaling.run Signaling.new failures).0 more_failures).1 ≡ 5
unfolding Signaling.run Signaling.step
five_timers = refl

-- `"a/..b "` becomes `"a__b"`.
abbrev file_name : Utf16
file_name = units "a/..b "

sanitized : sanitize_file_name file_name ≡ units "a__b"
unfolding sanitize_file_name
sanitized = refl

-- A single dot stays, and then fails the schema of a file name.
sanitized_dot :
    (sanitize_file_name (units ".") ≡ units ".")
    × (safe_file_name (some (string (sanitize_file_name (units ".")))) ≡ none)
unfolding sanitize_file_name safe_file_name utf16_beq
sanitized_dot = (refl, refl)

sanitize_file_name-IsPlain_example :
    IsPlain (sanitize_file_name file_name)
    × (0 < length (sanitize_file_name file_name))
    × (length (sanitize_file_name file_name) ≤ 255)
sanitize_file_name-IsPlain_example = sanitize_file_name-IsPlain file_name

abbrev entry : ℕ → ℕ → HistoryEntry
entry id timestamp = record {
  id = id ∷ [];
  direction = sent;
  file_name = units "a";
  size = 1;
  timestamp = timestamp;
  status = HistoryStatus.completed;
  peer_name = units "B";
  verified = true;
}

-- The repository has an entry when the page opens; another is added, the history is cleared, and a
-- third one is added.
abbrev stored : HistoryStore
stored = HistoryStore.initial (add (entry 2 20) [])

abbrev calls : List Call
calls = adds (entry 1 30) ∷ clears ∷ adds (entry 3 5) ∷ []

run-cached_example :
    ((HistoryStore.run (refresh stored) calls).entries
      ≡ list (HistoryStore.run (refresh stored) calls).repository)
    × NewestFirst (HistoryStore.run (refresh stored) calls).entries
unfolding get set utf16_beq
run-cached_example = run-cached stored calls ((refl, (omega arith, tt)), ((refl, tt), tt))

abbrev qr_token : Utf16
qr_token = units "abcdefghijklmnop"

parse-build_qr_payload_example :
    parse_qr_payload
      (λ u. true)
      5
      (some (build_qr_payload (units "ABCDEFGH") qr_token (units "ws:x") 9))
    ≡ parsed (record {
      version = 1;
      session_id = units "ABCDEFGH";
      token = qr_token;
      signaling_url = units "ws:x";
      expires_at = 9;
    })
parse-build_qr_payload_example =
    parse-build_qr_payload (λ u. true) 5 (units "ABCDEFGH") qr_token (units "ws:x") 9 (omega arith)
      (omega arith) (omega arith) (omega arith) refl (omega arith)
