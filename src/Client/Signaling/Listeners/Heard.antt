-- ===== src/Client/Signaling/Listeners/Heard.antt =====
-- Which handlers hear a message.
use file_share_app.Base.{
  ℕ, suc, ltb, ◌++◌, Bool, true, false, List, [], ◌∷◌, Option, none, some, Utf16, utf16_eq, nat_eq,
  if◌then◌else◌, ◌≡◌, refl, ◌∙◌, eqb, eqb_iff, ◌&&◌, ◌==◌, arith, utf16_beq_iff, Bool-cases, inl,
  inr,
}
use file_share_app.Base.Dict.{get, set, get-set}
use file_share_app.Client.PeerConnection.{listed, add_handler, remove_handler}
use file_share_app.Client.Signaling.Listeners.{
  Listeners, or_none, with_type, remove_from, on, unsubscribe, dispatch, Call, subscribes,
  unsubscribes, closes, step,
}

-- The listeners after the calls, the latest first.
unfoldable pub after : List Call → Listeners
after [] = []
after (c ∷ older) = step (after older) c

-- Whether the handler's last call for the type, since the last `close`, subscribed it.
abbrev pub is_subscribed : Utf16 → ℕ → List Call → Bool
is_subscribed type handler [] = false
is_subscribed type handler (closes ∷ older) = false
is_subscribed type handler (subscribes t h ∷ older) =
    if (t == type) && eqb h handler then true else is_subscribed type handler older
is_subscribed type handler (unsubscribes t h ∷ older) =
    if (t == type) && eqb h handler then false else is_subscribed type handler older

-- How often a handler is called.
abbrev pub times : ℕ → List ℕ → ℕ
times h [] = 0
times h (g ∷ gs) = if eqb g h then suc (times h gs) else times h gs

abbrev pub once_if : Bool → ℕ
once_if b = if b then 1 else 0

listed-times : (h : ℕ) (hs : List ℕ) → listed hs h ≡ ltb 0 (times h hs)
listed-times h [] = refl
listed-times h (g ∷ gs) = ground (arith, listed-times h gs)

times-snoc :
    (h g : ℕ) (hs : List ℕ)
    → times h (hs ++ g ∷ []) ≡ (if eqb g h then suc (times h hs) else times h hs)
times-snoc h g [] = refl
times-snoc h g (k ∷ ks) = ground (arith, times-snoc h g ks)

times-remove_handler :
    (h g : ℕ) (hs : List ℕ) → times h (remove_handler g hs) ≡ (if eqb g h then 0 else times h hs)
unfolding remove_handler
times-remove_handler h g [] = ground arith
times-remove_handler h g (k ∷ ks) = ground (arith, times-remove_handler h g ks)

times-add_handler_same :
    (h : ℕ) (hs : List ℕ) (b : Bool) → times h hs ≡ once_if b → times h (add_handler h hs) ≡ 1
unfolding add_handler
times-add_handler_same h hs true once = ground (arith, times-snoc h h hs, listed-times h hs)
times-add_handler_same h hs false once = ground (arith, times-snoc h h hs, listed-times h hs)

times-add_handler :
    (h g : ℕ) (hs : List ℕ) (b : Bool)
    → times h hs ≡ once_if b
    → times h (add_handler g hs) ≡ once_if (if eqb g h then true else b)
unfolding add_handler
times-add_handler h g hs b once = elim (Bool-cases (eqb g h)) [
  | inl same ↦ rw (same, (eqb_iff g h).0 same) (times-add_handler_same h hs b once)
  | inr other ↦ ground (arith, times-snoc h g hs)
]

beq_same : (t : Utf16) → (t == t) ≡ true
beq_same t = (utf16_beq_iff t t).1 refl

dispatch-set :
    (type t : Utf16) (hs : List ℕ) (l : Listeners)
    → dispatch type (set t hs l) ≡ (if t == type then hs else dispatch type l)
unfolding dispatch
dispatch-set type t hs l = ground (arith, get-set t type hs l)

dispatch-with_type :
    (type t : Utf16) (l : Listeners) → dispatch type (with_type t l) ≡ dispatch type l
unfolding dispatch with_type
dispatch-with_type type t l = ground (arith, get-set t type [] l, utf16_beq_iff t type)

dispatch-on :
    (type t : Utf16) (g : ℕ) (l : Listeners)
    → dispatch type (on t g l)
      ≡ (if t == type then add_handler g (dispatch t l) else dispatch type l)
unfolding on
dispatch-on type t g l =
    dispatch-set type t _ (with_type t l)
    ∙ rw (dispatch-with_type t t l, dispatch-with_type type t l) refl

removed-dispatch :
    (type t : Utf16) (g : ℕ) (l : Listeners) (o : Option (List ℕ))
    → get t l ≡ o
    → dispatch type (remove_from t g l o)
      ≡ (if t == type then remove_handler g (or_none o) else dispatch type l)
unfolding dispatch remove_handler
removed-dispatch type t g l none e = ground (arith, utf16_beq_iff t type)
removed-dispatch type t g l (some hs) e = dispatch-set type t (remove_handler g hs) l

removed_once :
    (b c : Bool) (n : ℕ) → n ≡ once_if c → (if b then 0 else n) ≡ once_if (if b then false else c)
removed_once true c n h = refl
removed_once false c n h = h

dispatch-unsubscribe :
    (type t : Utf16) (g : ℕ) (l : Listeners)
    → dispatch type (unsubscribe t g l)
      ≡ (if t == type then remove_handler g (dispatch t l) else dispatch type l)
unfolding unsubscribe dispatch
dispatch-unsubscribe type t g l = removed-dispatch type t g l (get t l) refl

-- Whatever subscribes, unsubscribes and closes, a message calls a handler once when the handler's
-- last call for its type, since the last `close`, subscribed it, and not at all otherwise.
pub times-dispatch :
    (type : Utf16) (handler : ℕ) (calls : List Call)
    → times handler (dispatch type (after calls)) ≡ once_if (is_subscribed type handler calls)
unfolding after step dispatch get
times-dispatch type h [] = refl
times-dispatch type h (closes ∷ older) = refl
times-dispatch type h (subscribes t g ∷ older) =
    rw (dispatch-on type t g (after older)) (elim (Bool-cases (t == type)) [
      | inl same ↦
          rw (same, (utf16_beq_iff t type).0 same)
            (times-add_handler h g (dispatch type (after older)) _ (times-dispatch type h older))
      | inr other ↦ rw other (times-dispatch type h older)
    ])
times-dispatch type h (unsubscribes t g ∷ older) =
    rw (dispatch-unsubscribe type t g (after older)) (elim (Bool-cases (t == type)) [
      | inl same ↦
          rw (same, (utf16_beq_iff t type).0 same)
            (times-remove_handler h g (dispatch type (after older))
              ∙ removed_once (eqb g h) _ _ (times-dispatch type h older))
      | inr other ↦ rw other (times-dispatch type h older)
    ])
