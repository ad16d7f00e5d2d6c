-- ===== src/Transfer/Sender/Attempts.antt =====
-- How often a sender tries to connect again.
use file_share_app.Base.{
  ℕ, suc, ◌≤◌, ◌≡◌, refl, All, arith, ◌+◌, ◌-◌, Bool, true, false, List, [], ◌∷◌, ◌++◌, get_elem?,
  Option, none, some, eqb, leb, Utf16, utf16_eq, nat_eq, if◌then◌else◌,
}
use file_share_app.Base.Dict.{Dict, get, delete}
use file_share_app.Client.TransferStore.{PerFileStatus}
use file_share_app.Transfer.Crypto.{Crypto}
use file_share_app.Transfer.Pump.{Outcome}
use file_share_app.Transfer.ControlProtocol.{ControlMessage}
use file_share_app.Transfer.Sender.{
  QueuedFileWithMeta, AcceptLoop, Waiting, Effect, max_webrtc_reconnect_attempts,
}
use file_share_app.Transfer.Sender.{for_pump, for_history}
use file_share_app.Transfer.Sender.Handlers.{Here, send_file_text, set_status, to_peer, start}
use file_share_app.Transfer.Sender.Loop.{
  handle_accept, round, enter_round, send_file, after_pump, pump_of_loop, history_of_loop, at_pump,
  at_history, pump_ended, history_added,
}
use file_share_app.Transfer.Sender.Kept.{
  is_plain, IsStable, IsOrdinary, IsOrdinarySignal, IsOrdinaryPeer, step-Kept,
}
use file_share_app.Transfer.Sender.Steps.{Event, step, run}

module _ (c : Crypto) where
  abbrev creates : Effect c → ℕ
  creates (Effect.creates_offer n) = 1
  creates _ = 0

  -- The connections that were offered.
  abbrev pub offers : List (Effect c) → ℕ
  offers [] = 0
  offers (e ∷ es) = creates e + offers es

  offers-append : (es fs : List (Effect c)) → offers (es ++ fs) ≡ offers es + offers fs
  offers-append [] fs = omega arith
  offers-append (e ∷ es) fs = omega (arith, offers-append es fs)

  record IsTried (base : ℕ) (outputs : List (Effect c)) (attempts timers : ℕ) : Type 0 where
    spent : offers outputs + timers ≤ base + attempts
    few : attempts ≤ max_webrtc_reconnect_attempts

  effect-IsTried :
      {base : ℕ} {outputs : List (Effect c)} {attempts timers : ℕ} (e : Effect c)
      → creates e ≡ 0
      → IsTried base outputs attempts timers
      → IsTried base (outputs ++ e ∷ []) attempts timers
  effect-IsTried {outputs = outputs} e other h = record {
    spent = omega (arith, offers-append outputs (e ∷ []), other, h.spent);
    few = h.few;
  }

  -- A timer that fired is turned into an offer.
  offer-IsTried :
      (base : ℕ) (outputs : List (Effect c)) (attempts timers n : ℕ)
      → eqb timers 0 ≡ false
      → IsTried base outputs attempts timers
      → IsTried base (outputs ++ Effect.creates_offer n ∷ []) attempts (timers - 1)
  offer-IsTried base outputs attempts timers n e h = record {
    spent = ground (arith, offers-append outputs (Effect.creates_offer n ∷ []), h.spent);
    few = h.few;
  }

  less-IsTried :
      {base : ℕ} {outputs : List (Effect c)} {attempts timers : ℕ}
      → IsTried base outputs attempts timers
      → IsTried base outputs attempts (timers - 1)
  less-IsTried h = record { spent = omega (arith, h.spent); few = h.few }

  more-IsTried :
      {base : ℕ} {outputs : List (Effect c)} {attempts timers : ℕ}
      → leb max_webrtc_reconnect_attempts attempts ≡ false
      → IsTried base outputs attempts timers
      → IsTried base outputs (suc attempts) (suc timers)
  more-IsTried e h = record { spent = omega (arith, h.spent); few = ground arith }

module _ (c : Crypto) (Number : Type 0) (nought infinity : Number) where
  -- No receiver joins, and no channels get ready.
  abbrev pub IsCalm : Event c Number nought infinity → Type 0
  IsCalm (Event.signaling e) = IsOrdinarySignal c Number nought infinity e
  IsCalm (Event.peer n e) = IsOrdinaryPeer c Number nought infinity e
  IsCalm _ = Unit

module _ (c : Crypto) where
  abbrev Tries :
      ℕ → List (Effect c) → ℕ → ℕ → List QueuedFileWithMeta → Dict ℕ AcceptLoop → Option ℕ → Type 0
  Tries base outputs attempts timers queue loops peer = IsTried c base outputs attempts timers

  plain_creates : (e : Effect c) → is_plain c e ≡ true → creates c e ≡ 0
  plain_creates (Effect.creates_offer n) h = cc
  plain_creates _ h = refl

  Tries-IsStable : (base : ℕ) → IsStable c (Tries base)
  Tries-IsStable base = record {
    adds = λ e plain h. effect-IsTried c e (plain_creates e plain) h;
    loses = λ e h. more-IsTried c e h;
    drops = λ h. less-IsTried c h;
    retries = λ n e h. offer-IsTried c base _ _ _ n e h;
  }

module _ (c : Crypto) (Number : Type 0) (nought infinity : Number) (base : ℕ) where
  abbrev Tried : Here c Number nought infinity → Type 0
  Tried s = IsTried c base s.outputs s.webrtc_reconnect_attempts s.reconnect_timers

  if-Tried :
      (b : Bool) (s t : Here c Number nought infinity)
      → Tried s
      → Tried t
      → Tried (if b then s else t)
  if-Tried true s t g h = g
  if-Tried false s t g h = h

  text-Tried :
      (m : ControlMessage) (s : Here c Number nought infinity)
      → Tried s
      → Tried (send_file_text c Number nought infinity m s)
  unfolding to_peer
  text-Tried m s h = sent_to s.peer
    where
      sent_to :
          (peer : Option ℕ)
          → Tried (to_peer c Number nought infinity peer (λ n. Effect.sends_file_text n m) s)
      sent_to none = h
      sent_to (some n) = effect-IsTried c (Effect.sends_file_text n m) refl h

  round-Tried :
      (n : ℕ) (resume_map : Dict Utf16 ℕ) (i : ℕ) (o : Option QueuedFileWithMeta)
      (s : Here c Number nought infinity)
      → Tried s
      → Tried (enter_round c Number nought infinity n resume_map i o s)
  unfolding enter_round send_file
  round-Tried n resume_map i none s h =
      let ended = record s { loops = delete n s.loops } in
      if-Tried s.cancelled _ _ h
        (text-Tried (ControlMessage.transfer_complete s.transfer_id) ended h)
  round-Tried n resume_map i (some item) s h =
      if-Tried s.cancelled _ _ h (effect-IsTried c _ refl h)

  accept-Tried :
      (d : Option (Dict Utf16 ℕ)) (s : Here c Number nought infinity)
      → Tried s
      → Tried (handle_accept c Number nought infinity d s)
  unfolding handle_accept round
  accept-Tried d s h = round-Tried _ _ 0 (get_elem? s.queue 0) _ h

  after_pump-Tried :
      (n : ℕ) (d : Dict Utf16 ℕ) (i : ℕ) (outcome : Outcome) (now : ℕ)
      (o : Option QueuedFileWithMeta) (s : Here c Number nought infinity)
      → Tried s
      → Tried (after_pump c Number nought infinity n d i outcome now o s)
  unfolding after_pump round
  after_pump-Tried n d i outcome now none s h = h
  after_pump-Tried n d i Outcome.was_cancelled now (some item) s h =
      round-Tried n d (suc i) (get_elem? s.queue (suc i))
        (set_status c Number nought infinity item.file.id PerFileStatus.cancelled s) h
  after_pump-Tried n d i (Outcome.completed checksum) now (some item) s h =
      effect-IsTried c _ refl
        (text-Tried (ControlMessage.file_complete item.metadata.id checksum) s h)

  at_pump-Tried :
      (n : ℕ) (d : Dict Utf16 ℕ) (w : Waiting) (outcome : Outcome) (now : ℕ)
      (s : Here c Number nought infinity)
      → Tried s
      → Tried (at_pump c Number nought infinity n d w outcome now s)
  unfolding at_pump
  at_pump-Tried n d (for_pump i pump) outcome now s h =
      after_pump-Tried n d i outcome now (get_elem? s.queue i) (record s { active_pump = none }) h
  at_pump-Tried n d (for_history i) outcome now s h = h

  pump_of_loop-Tried :
      (n : ℕ) (outcome : Outcome) (now : ℕ) (o : Option AcceptLoop)
      (s : Here c Number nought infinity)
      → Tried s
      → Tried (pump_of_loop c Number nought infinity n outcome now o s)
  unfolding pump_of_loop
  pump_of_loop-Tried n outcome now none s h = h
  pump_of_loop-Tried n outcome now (some l) s h =
      at_pump-Tried n l.resume_map l.waiting outcome now s h

  at_history-Tried :
      (n : ℕ) (d : Dict Utf16 ℕ) (w : Waiting) (s : Here c Number nought infinity)
      → Tried s
      → Tried (at_history c Number nought infinity n d w s)
  unfolding at_history round
  at_history-Tried n d (for_pump i pump) s h = h
  at_history-Tried n d (for_history i) s h = round-Tried n d (suc i) (get_elem? s.queue (suc i)) s h

  history_of_loop-Tried :
      (n : ℕ) (o : Option AcceptLoop) (s : Here c Number nought infinity)
      → Tried s
      → Tried (history_of_loop c Number nought infinity n o s)
  unfolding history_of_loop round
  history_of_loop-Tried n none s h = h
  history_of_loop-Tried n (some l) s h = at_history-Tried n l.resume_map l.waiting s h

  ordinary-Tried :
      (text : Utf16) (s : Here c Number nought infinity) (e : Event c Number nought infinity)
      → IsOrdinary c Number nought infinity e
      → Tried s
      → Tried (step c Number nought infinity text s e)
  ordinary-Tried text s e q h =
      step-Kept c Number nought infinity (Tries c base) (Tries-IsStable c base) accept-Tried text s
        e q h

  step-Tried :
      (text : Utf16) (s : Here c Number nought infinity) (e : Event c Number nought infinity)
      → IsCalm c Number nought infinity e
      → Tried s
      → Tried (step c Number nought infinity text s e)
  unfolding step start pump_ended history_added
  step-Tried text s (Event.starts memory files) q h =
      if-Tried s.encryption_enabled _ _ (effect-IsTried c _ refl h)
        (effect-IsTried c _ refl (effect-IsTried c _ refl h))
  step-Tried text s (Event.pump_ended n outcome now) q h =
      pump_of_loop-Tried n outcome now (get n s.loops) s h
  step-Tried text s (Event.history_added n) q h = history_of_loop-Tried n (get n s.loops) s h
  step-Tried text s (Event.signaling e) q h = ordinary-Tried text s (Event.signaling e) q h
  step-Tried text s (Event.peer n e) q h = ordinary-Tried text s (Event.peer n e) q h
  step-Tried text s (Event.key_generated session) q h =
      ordinary-Tried text s (Event.key_generated session) q h
  step-Tried text s Event.signaling_connected q h =
      ordinary-Tried text s Event.signaling_connected q h
  step-Tried text s (Event.connection_failed message) q h =
      ordinary-Tried text s (Event.connection_failed message) q h
  step-Tried text s (Event.offer_created sdp) q h =
      ordinary-Tried text s (Event.offer_created sdp) q h
  step-Tried text s Event.pauses q h = ordinary-Tried text s Event.pauses q h
  step-Tried text s Event.resumes q h = ordinary-Tried text s Event.resumes q h
  step-Tried text s Event.destroys q h = ordinary-Tried text s Event.destroys q h
  step-Tried text s (Event.cancels reason) q h = ordinary-Tried text s (Event.cancels reason) q h
  step-Tried text s (Event.key_exported now key iv_salt) q h =
      ordinary-Tried text s (Event.key_exported now key iv_salt) q h
  step-Tried text s (Event.pump_calls speeds i output) q h =
      ordinary-Tried text s (Event.pump_calls speeds i output) q h
  step-Tried text s (Event.ping_due interval) q h =
      ordinary-Tried text s (Event.ping_due interval) q h
  step-Tried text s (Event.pong_missed timer) q h =
      ordinary-Tried text s (Event.pong_missed timer) q h
  step-Tried text s (Event.reconnect_due signaling_open) q h =
      ordinary-Tried text s (Event.reconnect_due signaling_open) q h

  run-Tried :
      (text : Utf16) (es : List (Event c Number nought infinity))
      (s : Here c Number nought infinity)
      → All (IsCalm c Number nought infinity) es
      → Tried s
      → Tried (run c Number nought infinity text s es)
  unfolding run
  run-Tried text [] s q h = h
  run-Tried text (e ∷ es) s (q, qs) h =
      run-Tried text es (step c Number nought infinity text s e) qs (step-Tried text s e q h)

module _ (c : Crypto) (Number : Type 0) (nought infinity : Number) where
  -- From a session that has tried nothing since it was last connected, with no timer for a new
  -- attempt: as long as no receiver joins anew and no channels get ready, whatever else happens, and
  -- however often the connection fails or a PONG is missed, at most five further connections are
  -- offered, and the attempts counted stay at five or below.
  pub run-attempts :
      (text : Utf16) (s : Here c Number nought infinity)
      (es : List (Event c Number nought infinity))
      → s.webrtc_reconnect_attempts ≡ 0
      → s.reconnect_timers ≡ 0
      → All (IsCalm c Number nought infinity) es
      → (offers c (run c Number nought infinity text s es).outputs
          ≤ offers c s.outputs + max_webrtc_reconnect_attempts)
        × ((run c Number nought infinity text s es).webrtc_reconnect_attempts
            ≤ max_webrtc_reconnect_attempts)
  run-attempts text s es none_tried none_due calm =
      let h =
        run-Tried c Number nought infinity (offers c s.outputs) text es s calm (record {
          spent = omega (arith, none_tried, none_due);
          few = omega (arith, none_tried);
        }) in
      (omega (arith, h.spent, h.few), h.few)
