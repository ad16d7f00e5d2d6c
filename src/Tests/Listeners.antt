-- ===== src/Tests/Listeners.antt =====
-- The listeners of messages at concrete inputs.
use file_share_app.Base.{◌≡◌, refl, true, List, [], ◌∷◌, utf16_beq, utf16_eq}
use file_share_app.Client.Signaling.Listeners.{Call, subscribes, unsubscribes, closes, dispatch}
use file_share_app.Client.Signaling.Listeners.Heard.{
  after, times, once_if, is_subscribed, times-dispatch,
}

-- The latest first: handler 1 subscribes to both types, twice to the first, and leaves the second;
-- what it did before the client was closed does not count.
abbrev calls : List Call
calls =
    unsubscribes (2 ∷ []) 1
    ∷ subscribes (1 ∷ []) 1
    ∷ subscribes (2 ∷ []) 1
    ∷ subscribes (1 ∷ []) 1
    ∷ closes
    ∷ subscribes (3 ∷ []) 1
    ∷ []

times-dispatch_example :
    times 1 (dispatch (1 ∷ []) (after calls)) ≡ once_if (is_subscribed (1 ∷ []) 1 calls)
times-dispatch_example = times-dispatch (1 ∷ []) 1 calls

subscribed : is_subscribed (1 ∷ []) 1 calls ≡ true
unfolding utf16_beq
subscribed = refl

closed_forgotten : times 1 (dispatch (3 ∷ []) (after calls)) ≡ 0
unfolding utf16_beq
closed_forgotten = times-dispatch (3 ∷ []) 1 calls
