-- ===== src/Tests/Startup.antt =====
-- The heartbeat of the server, the hash of a blob and the speed tracker at concrete inputs.
use file_share_app.Base.{ℕ, Bool, refl, ◌≡◌, arith, false, true, not, List, [], ◌∷◌, nat_eq}
use file_share_app.Base.Dict.{get, set, delete}
use file_share_app.Server.Startup.{beat, pong, step, Event, pongs, connects, closes, run}
use file_share_app.Server.Startup.Heartbeat.{terminated, answered, beat-answered}
use file_share_app.Transfer.Crypto.Hash.{sha256_hex_of_blob, sha256_hex_of_blob-whole}
use file_share_app.Transfer.Speed.{
  Sample, sum_bytes, is_above, record_bytes, current_bps, keep_samples, shift_old,
}
use file_share_app.Transfer.Speed.Window.{after}
use file_share_app.Tests.Toys.{toy_crypto}

abbrev clients : List (ℕ × Bool)
clients = (1, true) ∷ (2, true) ∷ (3, true) ∷ []

-- Sockets 2 and 3 answer, 4 connects, and 3 closes.
abbrev events : List Event
events = pongs 2 ∷ connects 4 ∷ pongs 3 ∷ closes 3 ∷ []

-- Socket 1 has not answered.
beat-answered_example :
    terminated 1 (beat (run (beat clients).0 events)).1 ≡ not (answered 1 events)
unfolding get
beat-answered_example =
    beat-answered 1 clients true events (refl, (refl, (refl, tt))) refl
      (tt, (refl, (tt, (refl, tt))))

silent_terminated : terminated 1 (beat (run (beat clients).0 events)).1 ≡ true
unfolding beat run step pong get set delete
silent_terminated = refl

-- Socket 2 stays.
answering_spared : terminated 2 (beat (run (beat clients).0 events)).1 ≡ false
unfolding beat run step pong get set delete
answering_spared = refl

-- Five bytes, two at a time.
sha256_hex_of_blob-whole_example :
    sha256_hex_of_blob toy_crypto (1 ∷ 2 ∷ 3 ∷ 4 ∷ 5 ∷ []) 2
    ≡ toy_crypto.bytes_to_hex
        (toy_crypto.digest (toy_crypto.update toy_crypto.create (1 ∷ 2 ∷ 3 ∷ 4 ∷ 5 ∷ [])))
sha256_hex_of_blob-whole_example =
    sha256_hex_of_blob-whole toy_crypto (1 ∷ 2 ∷ 3 ∷ 4 ∷ 5 ∷ []) 2 (omega arith)

-- Three calls, the latest first; the first one leaves the window of 25 milliseconds.
abbrev older : List Sample
older = record { bytes = 7; ts = 20 } ∷ record { bytes = 5; ts = 10 } ∷ []

abbrev latest : Sample
latest = record { bytes = 9; ts = 40 }

first_left : (after 25 0 (latest ∷ older)).samples ≡ record { bytes = 7; ts = 20 } ∷ latest ∷ []
unfolding after record_bytes keep_samples shift_old
first_left = refl

-- 7 bytes at the second call, over the 10 milliseconds since the first: 12 in 10.
peak_of_second : (after 25 0 (latest ∷ older)).peak ≡ record { bytes = 12; ms = 10 }
unfolding after record_bytes keep_samples shift_old current_bps sum_bytes is_above
peak_of_second = refl
