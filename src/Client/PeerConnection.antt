-- ===== src/Client/PeerConnection.antt =====
-- client/src/services/webrtc/PeerConnectionManager.ts. What RTCPeerConnection and the data channels
-- do on their own are events; what the manager asks of them, and the handlers that it calls, are its
-- effects. Handlers are numbers, candidates and session descriptions are texts.
pub mod Candidates
use file_share_app.Base.{
  ℕ, Bool, true, false, not, ◌&&◌, ◌||◌, List, [], ◌∷◌, ◌++◌, map, filter_by, Option, none, some,
  eqb, Utf16, if◌then◌else◌,
}

pub data PeerRole : Type 0 where
  sender receiver : PeerRole

-- The states of RTCPeerConnection, and of a data channel.
pub data WebRtcConnectionState : Type 0 where
  new connecting connected disconnected failed closed : WebRtcConnectionState

pub data ReadyState : Type 0 where
  opening is_open closing is_closed : ReadyState

-- `channel.label`
pub data Label : Type 0 where
  control file_transfer other_label : Label

pub data Payload : Type 0 where
  text : Utf16 → Payload
  binary : List ℕ → Payload

pub data Effect : Type 0 where
  creates_channel closes_channel : Label → Effect
  creates_offer creates_answer closes_connection : Effect
  sets_local_description sets_remote_description adds_candidate : Utf16 → Effect
  sends : Label → Payload → Effect
  calls_candidate : ℕ → Utf16 → Effect
  calls_state : ℕ → WebRtcConnectionState → Effect
  calls_message : Label → ℕ → Payload → Effect
  calls_ready : ℕ → Effect

pub record PeerConnectionManager : Type 0 where
  pub control_channel : Option ReadyState
  pub file_channel : Option ReadyState
  pub pending_remote_candidates : List Utf16
  pub remote_description_set : Bool
  -- What the loops of `setRemoteDescription` still have to add, one of them each time.
  pub loops : List (List Utf16)
  pub candidate_handlers : List ℕ
  pub state_handlers : List ℕ
  pub control_handlers : List ℕ
  pub file_handlers : List ℕ
  pub ready_handlers : List ℕ
  pub outputs : List Effect

abbrev put : List Effect → PeerConnectionManager → PeerConnectionManager
put es m = record m { outputs = m.outputs ++ es }

abbrev attached : Label → PeerConnectionManager → PeerConnectionManager
attached control m = record m { control_channel = some opening }
attached file_transfer m = record m { file_channel = some opening }
attached other_label m = m

-- `attachChannel`
unfoldable pub attach_channel : Label → PeerConnectionManager → PeerConnectionManager
attach_channel label m = attached label m

-- The constructor: a sender makes both channels, a receiver waits for them.
unfoldable pub new_manager : PeerRole → PeerConnectionManager
unfolding attach_channel
new_manager role = by_role role
  where
    bare : PeerConnectionManager
    bare = record {
      control_channel = none;
      file_channel = none;
      pending_remote_candidates = [];
      remote_description_set = false;
      loops = [];
      candidate_handlers = [];
      state_handlers = [];
      control_handlers = [];
      file_handlers = [];
      ready_handlers = [];
      outputs = [];
    }

    by_role : PeerRole → PeerConnectionManager
    by_role sender = attach_channel file_transfer (
        attach_channel control
          (put (creates_channel control ∷ creates_channel file_transfer ∷ []) bare))
    by_role receiver = bare

abbrev open_now : Option ReadyState → Bool
open_now (some is_open) = true
open_now _ = false

abbrev opened : Label → PeerConnectionManager → PeerConnectionManager
opened control m = record m { control_channel = some is_open }
opened file_transfer m = record m { file_channel = some is_open }
opened other_label m = m

-- A channel opens, and its listener runs.
unfoldable pub channel_opens : Label → PeerConnectionManager → PeerConnectionManager
channel_opens label m =
    let t = opened label m in
    if open_now t.control_channel && open_now t.file_channel
    then put (map calls_ready t.ready_handlers) t
    else t

unfoldable pub message_arrives : Label → Payload → PeerConnectionManager → PeerConnectionManager
message_arrives control message m =
    put (map (λ h. calls_message control h message) m.control_handlers) m
message_arrives file_transfer message m =
    put (map (λ h. calls_message file_transfer h message) m.file_handlers) m
message_arrives other_label message m = m

-- `wireConnectionEvents`: a null candidate is `none`.
unfoldable pub local_candidate : Option Utf16 → PeerConnectionManager → PeerConnectionManager
local_candidate none m = m
local_candidate (some candidate) m =
    put (map (λ h. calls_candidate h candidate) m.candidate_handlers) m

unfoldable pub state_changes : WebRtcConnectionState → PeerConnectionManager → PeerConnectionManager
state_changes state m = put (map (λ h. calls_state h state) m.state_handlers) m

-- `createOffer`, and after its first `await`.
unfoldable pub create_offer : PeerConnectionManager → PeerConnectionManager
create_offer m = put (creates_offer ∷ []) m

unfoldable pub description_created : Utf16 → PeerConnectionManager → PeerConnectionManager
description_created sdp m = put (sets_local_description sdp ∷ []) m

-- `setRemoteDescription`, up to its first `await`; `createAnswer` begins with it.
unfoldable pub set_remote_description : Utf16 → PeerConnectionManager → PeerConnectionManager
set_remote_description sdp m = put (sets_remote_description sdp ∷ []) m

-- `createAnswer` once the remote description is set.
unfoldable pub create_answer : PeerConnectionManager → PeerConnectionManager
create_answer m = put (creates_answer ∷ []) m

-- A round of the loop over the pending candidates, or its end.
unfoldable pub next_candidate : List Utf16 → PeerConnectionManager → PeerConnectionManager
next_candidate [] m = record m { pending_remote_candidates = [] }
next_candidate (candidate ∷ rest) m =
    put (adds_candidate candidate ∷ []) (record m { loops = rest ∷ m.loops })

-- `setRemoteDescription` after its first `await`.
unfoldable pub description_set : PeerConnectionManager → PeerConnectionManager
unfolding next_candidate
description_set m =
    next_candidate m.pending_remote_candidates (record m { remote_description_set = true })

unfoldable pub go_on : List (List Utf16) → PeerConnectionManager → PeerConnectionManager
unfolding next_candidate
go_on [] m = m
go_on (rest ∷ loops) m = next_candidate rest (record m { loops = loops })

-- `addIceCandidate` is done, and the latest loop goes on.
unfoldable pub candidate_added : PeerConnectionManager → PeerConnectionManager
unfolding go_on
candidate_added m = go_on m.loops m

unfoldable pub add_remote_ice_candidate : Utf16 → PeerConnectionManager → PeerConnectionManager
add_remote_ice_candidate candidate m =
    if not m.remote_description_set
    then record m { pending_remote_candidates = m.pending_remote_candidates ++ candidate ∷ [] }
    else put (adds_candidate candidate ∷ []) m

abbrev send_if : Bool → Label → Payload → PeerConnectionManager → PeerConnectionManager
send_if ready label message m = if ready then put (sends label message ∷ []) m else m

unfoldable pub send_control : Utf16 → PeerConnectionManager → PeerConnectionManager
send_control message m = send_if (open_now m.control_channel) control (text message) m

unfoldable pub send_file_channel_text : Utf16 → PeerConnectionManager → PeerConnectionManager
send_file_channel_text message m = send_if (open_now m.file_channel) file_transfer (text message) m

unfoldable pub send_file_chunk : List ℕ → PeerConnectionManager → PeerConnectionManager
send_file_chunk message m = send_if (open_now m.file_channel) file_transfer (binary message) m

-- A `Set` of handlers: `add`, and the function that `on…` returns.
abbrev pub listed : List ℕ → ℕ → Bool
listed [] h = false
listed (g ∷ gs) h = eqb g h || listed gs h

unfoldable pub add_handler : ℕ → List ℕ → List ℕ
add_handler h hs = if listed hs h then hs else hs ++ h ∷ []

unfoldable pub remove_handler : ℕ → List ℕ → List ℕ
remove_handler h = filter_by (λ g. not (eqb g h))

abbrev pub on_ice_candidate : ℕ → PeerConnectionManager → PeerConnectionManager
on_ice_candidate h m = record m { candidate_handlers = add_handler h m.candidate_handlers }

abbrev pub on_connection_state_change : ℕ → PeerConnectionManager → PeerConnectionManager
on_connection_state_change h m = record m { state_handlers = add_handler h m.state_handlers }

abbrev pub on_control_message : ℕ → PeerConnectionManager → PeerConnectionManager
on_control_message h m = record m { control_handlers = add_handler h m.control_handlers }

abbrev pub on_file_message : ℕ → PeerConnectionManager → PeerConnectionManager
on_file_message h m = record m { file_handlers = add_handler h m.file_handlers }

abbrev pub on_channels_ready : ℕ → PeerConnectionManager → PeerConnectionManager
on_channels_ready h m = record m { ready_handlers = add_handler h m.ready_handlers }

abbrev close_channel : Label → Option ReadyState → List Effect
close_channel label none = []
close_channel label (some state) = closes_channel label ∷ []

abbrev closed_channel : Option ReadyState → Option ReadyState
closed_channel none = none
closed_channel (some state) = some is_closed

unfoldable pub close : PeerConnectionManager → PeerConnectionManager
close m =
    put
      (close_channel control m.control_channel
        ++ (close_channel file_transfer m.file_channel ++ closes_connection ∷ []))
      (record m {
        control_channel = closed_channel m.control_channel;
        file_channel = closed_channel m.file_channel;
        candidate_handlers = [];
        state_handlers = [];
        control_handlers = [];
        file_handlers = [];
        ready_handlers = [];
      })
