-- ===== src/Transfer/Sender/Complete.antt =====
-- TRANSFER_COMPLETE comes after the FILE_COMPLETE of every file of the queue.
use file_share_app.Base.{
  ℕ, suc, ◌≡◌, refl, sym, ap, subst, ◌∙◌, is_some, utf16_beq_iff, ◌==◌, Bool-cases, inl, inr, All,
  arith, Bool, true, false, ◌||◌, List, [], ◌∷◌, ◌++◌, get_elem?, Option, none, some, eqb, eqb_iff,
  Utf16, utf16_eq, nat_eq, if◌then◌else◌,
}
use file_share_app.Base.Dict.{Dict, get, delete}
use file_share_app.Transfer.Crypto.{Crypto}
use file_share_app.Transfer.Pump.{EncryptionSession, Outcome}
use file_share_app.Transfer.ControlProtocol.{ControlMessage}
use file_share_app.Transfer.Sender.{QueuedFileWithMeta, AcceptLoop, Waiting, Effect}
use file_share_app.Transfer.Sender.{for_pump, for_history}
use file_share_app.Transfer.Sender.Handlers.{Here, to_peer}
use file_share_app.Transfer.Sender.Connection.{new_peer}
use file_share_app.Transfer.Sender.Loop.{
  handle_accept, round, enter_round, send_file, after_pump, pump_of_loop, history_of_loop, at_pump,
  at_history, pump_ended, history_added,
}
use file_share_app.Transfer.Sender.Steps.{
  Event, PeerEvent, SignalingEvent, step, run, on_peer, on_signaling,
}
use mathlib.Core.Option.{some-injective}
use file_share_app.Transfer.Sender.Connection.{
  peer_joined, begin_web_rtc_handshake, channels_ready, initial_with, reoffer,
}
use file_share_app.Transfer.Sender.Kept.{is_plain, IsOrdinary, to_peer-Kept, offers-Kept, step-Kept}
use file_share_app.Transfer.Sender.Orderly.{
  told, ended, told-append, ToldBefore, reached, IsOrderly, Orders, Orders-IsStable,
  effect-IsOrderly, repeer-IsOrderly, set-IsOrderly, delete-IsOrderly, before_more, get_elem_below,
}

module _ (c : Crypto) (Number : Type 0) (nought infinity : Number) where
  -- Not a new start, and no pump that ended as cancelled.
  abbrev pub IsSteady : Event c Number nought infinity → Type 0
  IsSteady (Event.starts memory files) = ⊥
  IsSteady (Event.pump_ended n Outcome.was_cancelled now) = ⊥
  IsSteady _ = Unit

module _ (c : Crypto) (Number : Type 0) (nought infinity : Number)
    (items : List QueuedFileWithMeta) where
  abbrev Orderly : Here c Number nought infinity → Type 0
  Orderly s = IsOrderly c items s.outputs s.queue s.loops s.peer

  if-Orderly :
      (b : Bool) (s t : Here c Number nought infinity)
      → Orderly s
      → Orderly t
      → Orderly (if b then s else t)
  if-Orderly true s t g h = g
  if-Orderly false s t g h = h

  -- A text on the file channel, when there is a connection.
  text_outputs :
      (peer : Option ℕ) (m : ControlMessage) (s : Here c Number nought infinity)
      → is_some peer ≡ true
      → (n : ℕ) × (to_peer c Number nought infinity peer (λ k. Effect.sends_file_text k m) s
          ≡ record s { outputs = s.outputs ++ Effect.sends_file_text n m ∷ [] })
  unfolding to_peer
  text_outputs none m s h = cc
  text_outputs (some n) m s h = (n, refl)

  -- With every item told, the transfer may be called complete.
  finish-IsOrderly :
      {es : List (Effect c)} {queue : List QueuedFileWithMeta} {loops : Dict ℕ AcceptLoop}
      {peer : Option ℕ} (e : Effect c)
      → ((j : ℕ) → ToldBefore c items j es)
      → IsOrderly c items es queue loops peer
      → IsOrderly c items (es ++ e ∷ []) queue loops peer
  finish-IsOrderly {es} e all h = record {
    same = h.same;
    peered = h.peered;
    sent = λ n l g. before_more c items (reached c l.waiting) es (e ∷ []) (h.sent n l g);
    over = λ done j. before_more c items j es (e ∷ []) (all j);
  }

  all_told :
      (i : ℕ) (es : List (Effect c))
      → get_elem? items i ≡ none
      → ToldBefore c items i es
      → (j : ℕ) → ToldBefore c items j es
  all_told i es past before j k item e lt = before k item e (get_elem_below items i k item past e)

  round-Orderly :
      (n : ℕ) (d : Dict Utf16 ℕ) (i : ℕ) (o : Option QueuedFileWithMeta)
      (s : Here c Number nought infinity)
      → get_elem? s.queue i ≡ o
      → ToldBefore c items i s.outputs
      → Orderly s
      → Orderly (enter_round c Number nought infinity n d i o s)
  unfolding enter_round send_file
  round-Orderly n d i none s e before h =
      let t = record s { loops = delete n s.loops } in
      let gone = delete-IsOrderly c n h in
      let m = ControlMessage.transfer_complete s.transfer_id in
      let (k, sent) = text_outputs s.peer m t h.peered in
      let past : get_elem? items i ≡ none = subst (λ q. get_elem? q i ≡ none) h.same e in
      let done =
        finish-IsOrderly (Effect.sends_file_text k m) (all_told i s.outputs past before) gone in
      if-Orderly s.cancelled _ _ gone (subst Orderly (sym sent) done)
  round-Orderly n d i (some item) s e before h =
      if-Orderly s.cancelled _ _ (delete-IsOrderly c n h) (
        effect-IsOrderly c _ refl
          (set-IsOrderly c n (record { resume_map = d; waiting = for_pump i s.pumps }) before h))

  accept-Orderly :
      (d : Option (Dict Utf16 ℕ)) (s : Here c Number nought infinity)
      → Orderly s
      → Orderly (handle_accept c Number nought infinity d s)
  unfolding handle_accept round
  accept-Orderly d s h =
      round-Orderly _ _ 0 (get_elem? s.queue 0) _ refl (λ j item e lt. absurd (omega arith)) h

  told_next :
      (i : ℕ) (es : List (Effect c)) (item : QueuedFileWithMeta) (k : ℕ) (checksum : Utf16)
      → get_elem? items i ≡ some item
      → ToldBefore c items i es
      → ToldBefore c items (suc i) (
          es
          ++ Effect.sends_file_text k (ControlMessage.file_complete item.metadata.id checksum) ∷ [])
  told_next i es item k checksum e before j other g lt = elim (Bool-cases (eqb j i)) [
    | inl same ↦
        let at : get_elem? items i ≡ some other =
          subst (λ x. get_elem? items x ≡ some other) ((eqb_iff j i).0 same) g in
        let this : other ≡ item = some-injective other item (sym at ∙ e) in
        told-append c other.metadata.id es _
        ∙ found (told c other.metadata.id es) (sym (ap (λ q. q.metadata.id) this))
    | inr differs ↦ before_more c items i es _ before j other g (ground arith)
  ]
    where
      found : {x y : Utf16} (b : Bool) → x ≡ y → (b || ((x == y) || false)) ≡ true
      found {x} {y} b same = ground (arith, utf16_beq_iff x y, same)

  completed-Orderly :
      (n : ℕ) (d : Dict Utf16 ℕ) (i : ℕ) (checksum : Utf16) (now : ℕ)
      (o : Option QueuedFileWithMeta) (s : Here c Number nought infinity)
      → get_elem? s.queue i ≡ o
      → ToldBefore c items i s.outputs
      → Orderly s
      → Orderly (after_pump c Number nought infinity n d i (Outcome.completed checksum) now o s)
  unfolding after_pump
  completed-Orderly n d i checksum now none s e before h = h
  completed-Orderly n d i checksum now (some item) s e before h =
      let m = ControlMessage.file_complete item.metadata.id checksum in
      let (k, sent) = text_outputs s.peer m s h.peered in
      let said = effect-IsOrderly c (Effect.sends_file_text k m) refl h in
      let l : AcceptLoop = record { resume_map = d; waiting = for_history i } in
      let at = subst (λ q. get_elem? q i ≡ some item) h.same e in
      let before' =
        subst (λ t. ToldBefore c items (suc i) t.outputs) (sym sent)
          (told_next i s.outputs item k checksum at before) in
      effect-IsOrderly c _ refl (
        set-IsOrderly c n l before'
          (subst (λ t. IsOrderly c items t.outputs t.queue s.loops t.peer) (sym sent) said))

  history-Orderly :
      (n : ℕ) (o : Option AcceptLoop) (s : Here c Number nought infinity)
      → get n s.loops ≡ o
      → Orderly s
      → Orderly (history_of_loop c Number nought infinity n o s)
  unfolding history_of_loop at_history round
  history-Orderly n none s e h = h
  history-Orderly n (some l) s e h = at_wait l.waiting (h.sent n l e)
    where
      at_wait :
          (w : Waiting)
          → ToldBefore c items (reached c w) s.outputs
          → Orderly (at_history c Number nought infinity n l.resume_map w s)
      at_wait (for_pump i pump) before = h
      at_wait (for_history i) before =
          round-Orderly n l.resume_map (suc i) (get_elem? s.queue (suc i)) s refl before h

  at_pump-Orderly :
      (n : ℕ) (d : Dict Utf16 ℕ) (w : Waiting) (checksum : Utf16) (now : ℕ)
      (s : Here c Number nought infinity)
      → ToldBefore c items (reached c w) s.outputs
      → Orderly s
      → Orderly (at_pump c Number nought infinity n d w (Outcome.completed checksum) now s)
  unfolding at_pump
  at_pump-Orderly n d (for_pump i pump) checksum now s before h =
      completed-Orderly n d i checksum now (get_elem? s.queue i) (record s { active_pump = none })
        refl before h
  at_pump-Orderly n d (for_history i) checksum now s before h = h

  pump-Orderly :
      (n : ℕ) (checksum : Utf16) (now : ℕ) (o : Option AcceptLoop)
      (s : Here c Number nought infinity)
      → get n s.loops ≡ o
      → Orderly s
      → Orderly (pump_of_loop c Number nought infinity n (Outcome.completed checksum) now o s)
  unfolding pump_of_loop
  pump-Orderly n checksum now none s e h = h
  pump-Orderly n checksum now (some l) s e h =
      at_pump-Orderly n l.resume_map l.waiting checksum now s (h.sent n l e) h

  ordinary-Orderly :
      (text : Utf16) (s : Here c Number nought infinity) (e : Event c Number nought infinity)
      → IsOrdinary c Number nought infinity e
      → Orderly s
      → Orderly (step c Number nought infinity text s e)
  ordinary-Orderly text s e q h =
      step-Kept c Number nought infinity (Orders c items) (Orders-IsStable c items) accept-Orderly
        text s e q h

  peer-Orderly :
      (peer : Option ℕ) (call : ℕ → Effect c) (s : Here c Number nought infinity)
      → ((n : ℕ) → is_plain c (call n) ≡ true)
      → Orderly s
      → Orderly (to_peer c Number nought infinity peer call s)
  peer-Orderly peer call s other h =
      to_peer-Kept c Number nought infinity (Orders c items) (Orders-IsStable c items) peer call s
        other h

  reoffer-Orderly :
      (now : ℕ) (o : Option QueuedFileWithMeta) (s : Here c Number nought infinity)
      → Orderly s
      → Orderly (reoffer c Number nought infinity now o s)
  unfolding reoffer
  reoffer-Orderly now none s h = h
  reoffer-Orderly now (some item) s h = peer-Orderly s.peer _ s (λ n. refl) h

  initial-Orderly :
      (now : ℕ) (o : Option (EncryptionSession c)) (s : Here c Number nought infinity)
      → Orderly s
      → Orderly (initial_with c Number nought infinity now o s)
  unfolding initial_with
  initial-Orderly now none s h =
      offers-Kept c Number nought infinity (Orders c items) (Orders-IsStable c items) now none none
        s h
  initial-Orderly now (some session) s h = effect-IsOrderly c Effect.exports_key refl h

  ready-Orderly :
      (now : ℕ) (s : Here c Number nought infinity)
      → Orderly s
      → Orderly (channels_ready c Number nought infinity now s)
  unfolding channels_ready
  ready-Orderly now s h =
      if-Orderly s.reconnecting _ _
        (reoffer-Orderly now (get_elem? s.queue s.active_file_index) _ h)
        (initial-Orderly now s.encryption _ h)

  joined-Orderly :
      (name : Utf16) (s : Here c Number nought infinity)
      → Orderly s
      → Orderly (peer_joined c Number nought infinity name s)
  unfolding peer_joined begin_web_rtc_handshake new_peer
  joined-Orderly name s h =
      effect-IsOrderly c (Effect.creates_offer s.peers) refl (repeer-IsOrderly c s.peers h)

  step-Orderly :
      (text : Utf16) (s : Here c Number nought infinity) (e : Event c Number nought infinity)
      → IsSteady c Number nought infinity e
      → Orderly s
      → Orderly (step c Number nought infinity text s e)
  unfolding step on_signaling on_peer pump_ended history_added
  step-Orderly text s (Event.starts memory files) q h = absurd q
  step-Orderly text s (Event.pump_ended n Outcome.was_cancelled now) q h = absurd q
  step-Orderly text s (Event.pump_ended n (Outcome.completed checksum) now) q h =
      pump-Orderly n checksum now (get n s.loops) s refl h
  step-Orderly text s (Event.history_added n) q h = history-Orderly n (get n s.loops) s refl h
  step-Orderly text s (Event.signaling (SignalingEvent.peer_joined name)) q h =
      joined-Orderly name s h
  step-Orderly text s (Event.peer n (PeerEvent.channels_ready now)) q h =
      if-Orderly _ _ s (ready-Orderly now s h) h
  step-Orderly text s e q h = ordinary-Orderly text s e tt h

  run-Orderly :
      (text : Utf16) (es : List (Event c Number nought infinity))
      (s : Here c Number nought infinity)
      → All (IsSteady c Number nought infinity) es
      → Orderly s
      → Orderly (run c Number nought infinity text s es)
  unfolding run
  run-Orderly text [] s q h = h
  run-Orderly text (e ∷ es) s (q, qs) h =
      run-Orderly text es (step c Number nought infinity text s e) qs (step-Orderly text s e q h)

module _ (c : Crypto) (Number : Type 0) (nought infinity : Number) where
  -- From a connected session with no loop that has sent no TRANSFER_COMPLETE: whatever happens after,
  -- with accepts, reconnections and losses in any order, but no new start and no pump that ends as
  -- cancelled, when TRANSFER_COMPLETE was sent, FILE_COMPLETE was sent for every file of the queue.
  pub run-told :
      (text : Utf16) (s : Here c Number nought infinity)
      (es : List (Event c Number nought infinity)) (i : ℕ) (item : QueuedFileWithMeta)
      → is_some s.peer ≡ true
      → s.loops ≡ []
      → ended c s.outputs ≡ false
      → All (IsSteady c Number nought infinity) es
      → ended c (run c Number nought infinity text s es).outputs ≡ true
      → get_elem? s.queue i ≡ some item
      → told c item.metadata.id (run c Number nought infinity text s es).outputs ≡ true
  unfolding get
  run-told text s es i item peered idle unfinished steady done there =
      let start : Orderly c Number nought infinity s.queue s = record {
        same = refl;
        peered = peered;
        sent = λ n l g. absurd (no_loop n l (subst (λ d. get n d ≡ some l) idle g));
        over = λ over. absurd (ground (arith, unfinished, over));
      } in
      (run-Orderly c Number nought infinity s.queue text es s steady start).over done (suc i) i item
        there (omega arith)
    where
      no_loop : (n : ℕ) (l : AcceptLoop) → get n [] ≡ some l → ⊥
      no_loop n l g = ground arith
