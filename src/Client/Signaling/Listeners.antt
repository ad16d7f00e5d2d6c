-- ===== src/Client/Signaling/Listeners.antt =====
-- client/src/services/signaling/SignalingClient.ts: the listeners of messages by their types.
-- A handler is a number. The handlers that one `dispatch` calls are taken to leave the
-- listeners of its type as they are, and not to throw.
pub mod Heard
use file_share_app.Base.{
  ℕ, Bool, true, false, not, List, [], ◌∷◌, Option, none, some, Utf16, utf16_eq, nat_eq,
  if◌then◌else◌,
}
use file_share_app.Base.Dict.{Dict, get, set, has}
use file_share_app.Client.PeerConnection.{add_handler, remove_handler}

abbrev pub Listeners : Type 0
Listeners = Dict Utf16 (List ℕ)

abbrev pub or_none : Option (List ℕ) → List ℕ
or_none none = []
or_none (some handlers) = handlers

-- The handlers of a type, which `dispatch` calls in order.
unfoldable pub dispatch : Utf16 → Listeners → List ℕ
dispatch type l = or_none (get type l)

-- An empty set for a new type.
unfoldable pub with_type : Utf16 → Listeners → Listeners
with_type type l = if not (has type l) then set type [] l else l

unfoldable pub on : Utf16 → ℕ → Listeners → Listeners
unfolding with_type dispatch
on type handler l =
    let l' = with_type type l in set type (add_handler handler (dispatch type l')) l'

-- What `on` returns, when it is called.
abbrev pub remove_from : Utf16 → ℕ → Listeners → Option (List ℕ) → Listeners
remove_from type handler l none = l
remove_from type handler l (some handlers) = set type (remove_handler handler handlers) l

unfoldable pub unsubscribe : Utf16 → ℕ → Listeners → Listeners
unsubscribe type handler l = remove_from type handler l (get type l)

pub data Call : Type 0 where
  subscribes unsubscribes : Utf16 → ℕ → Call
  closes : Call

-- `close` clears all listeners.
unfoldable pub step : Listeners → Call → Listeners
unfolding on unsubscribe
step l (subscribes type handler) = on type handler l
step l (unsubscribes type handler) = unsubscribe type handler l
step l closes = []
