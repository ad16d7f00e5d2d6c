-- ===== src/Transfer/Receiver/Once.antt =====
-- No file is finalized twice, whatever happens and in whatever order.
use file_share_app.Base.{◌≡◌, ◌≤◌, refl, true, List, [], ◌∷◌, Utf16, utf16_eq, arith}
use file_share_app.Base.Dict.{get}
use file_share_app.Client.TransferStore.{TransferStore}
use file_share_app.Client.ConnectionStore.{ConnectionStore}
use file_share_app.Transfer.Crypto.{Crypto}
use file_share_app.Transfer.Sink.{ChunkSink}
use file_share_app.Transfer.Receiver.{new, Effect, adds_history, Timer, running, no_timer, spent}
use file_share_app.Transfer.Receiver.Handlers.{
  Here, PeerState, fire, give_up, connection_state_change, channels_ready,
}
use file_share_app.Transfer.Receiver.Files.{destroy, cancel}
use file_share_app.Transfer.Receiver.Steps.{Event, PeerEvent, on_peer, step, run}
use file_share_app.Transfer.Receiver.Kept.{Property, IsStable, is_plain, IsOrdinary, step-Kept}
use file_share_app.Transfer.Receiver.Tally.{
  records, recorded, IsTallied, Tallied, effect-IsTallied, send_to-Tallied, close_peer-Tallied,
  if-Tallied, remember-IsNamed, complete-Tallied, finalized-Tallied,
}

abbrev Tallies : Property
Tallies outputs waiting finished known timer cancelled = IsTallied outputs waiting finished known

plain_records : (e : Effect) → is_plain e ≡ true → (id : Utf16) → records id e ≡ 0
plain_records (adds_history entry) h id = cc
plain_records _ h id = refl

module _ (c : Crypto) (k : ChunkSink) (Number : Type 0) (nought infinity : Number) where
  Tallies-IsStable : IsStable Tallies
  Tallies-IsStable = record {
    adds = λ e plain h. effect-IsTallied e (plain_records e plain) h;
    remembers = λ files h. record {
      counted = h.counted;
      named = remember-IsNamed c k Number nought infinity files _ h.named;
      kept = h.kept;
    };
    arms = λ h. h;
  }

  ordinary-Tallied :
      (s : Here c k Number nought infinity) (e : Event c k Number nought infinity)
      → IsOrdinary c k Number nought infinity e
      → Tallied c k Number nought infinity s
      → Tallied c k Number nought infinity (step c k Number nought infinity s e)
  ordinary-Tallied s e q h =
      step-Kept c k Number nought infinity Tallies Tallies-IsStable
        (λ file_id checksum t g. complete-Tallied c k Number nought infinity file_id checksum t g) s
        e q h

  fire-Tallied :
      (t : Timer) (text : Utf16) (s : Here c k Number nought infinity)
      → Tallied c k Number nought infinity s
      → Tallied c k Number nought infinity (fire c k Number nought infinity t text s)
  unfolding fire
  fire-Tallied running text s h = if-Tallied c k Number nought infinity s.cancelled _ _ h h
  fire-Tallied no_timer text s h = h
  fire-Tallied spent text s h = h

  destroy-Tallied :
      (s : Here c k Number nought infinity)
      → Tallied c k Number nought infinity s
      → Tallied c k Number nought infinity (destroy c k Number nought infinity s)
  unfolding destroy
  destroy-Tallied s h =
      effect-IsTallied _ (λ id. refl) (close_peer-Tallied c k Number nought infinity s.peer _ h)

  step-Tallied :
      (s : Here c k Number nought infinity) (e : Event c k Number nought infinity)
      → Tallied c k Number nought infinity s
      → Tallied c k Number nought infinity (step c k Number nought infinity s e)
  unfolding step on_peer connection_state_change channels_ready give_up cancel
  step-Tallied s (Event.gives_up text) h = fire-Tallied s.give_up_timer text s h
  step-Tallied s (Event.peer n (PeerEvent.state_changed PeerState.connected)) h =
      if-Tallied c k Number nought infinity _ _ s h h
  step-Tallied s (Event.peer n PeerEvent.channels_ready) h =
      if-Tallied c k Number nought infinity _ _ s h h
  step-Tallied s (Event.finalized file_id blob now) h =
      finalized-Tallied c k Number nought infinity file_id blob now s h
  step-Tallied s Event.cancels h =
      destroy-Tallied _ (send_to-Tallied c k Number nought infinity s.peer _ _ h)
  step-Tallied s Event.destroys h = destroy-Tallied s h
  step-Tallied s e h = ordinary-Tallied s e tt h

  run-Tallied :
      (es : List (Event c k Number nought infinity)) (s : Here c k Number nought infinity)
      → Tallied c k Number nought infinity s
      → Tallied c k Number nought infinity (run c k Number nought infinity s es)
  unfolding run
  run-Tallied [] s h = h
  run-Tallied (e ∷ es) s h =
      run-Tallied es (step c k Number nought infinity s e) (step-Tallied s e h)

  -- Whatever happens to a new session, in whatever order and however often FILE_COMPLETE comes, the
  -- history gets at most one entry for a file.
  pub recorded_once :
      (transfers : TransferStore Number nought infinity) (connection : ConnectionStore)
      (name : Utf16) (es : List (Event c k Number nought infinity)) (id : Utf16)
      → recorded id
          (run c k Number nought infinity
            (new c k Number nought infinity transfers connection name)
            es).outputs
        ≤ 1
  unfolding new get
  recorded_once transfers connection name es id =
      let fresh : Tallied c k Number nought infinity
          (new c k Number nought infinity transfers connection name) =
        record { counted = λ i. omega arith; named = λ i f e. cc; kept = λ i g e. cc } in
      ground (
        arith,
        (run-Tallied es (new c k Number nought infinity transfers connection name) fresh).counted
            id,
      )
