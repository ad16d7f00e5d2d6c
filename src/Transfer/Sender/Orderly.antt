-- ===== src/Transfer/Sender/Orderly.antt =====
-- When a sender says that its transfer is complete.
use file_share_app.Base.{
  ℕ, suc, ◌<◌, ◌≡◌, refl, sym, subst, ◌∙◌, zero, is_some, ◌==◌, arith, Bool, true, false, ◌||◌,
  List, [], ◌∷◌, ◌++◌, get_elem?, Option, none, some, eqb, Utf16, utf16_eq, nat_eq, if◌then◌else◌,
}
use file_share_app.Base.Dict.{Dict, get, set, delete, get-set, get-delete}
use file_share_app.Transfer.Crypto.{Crypto}
use file_share_app.Transfer.ControlProtocol.{ControlMessage}
use file_share_app.Transfer.Sender.{QueuedFileWithMeta, AcceptLoop, Waiting, Effect}
use file_share_app.Transfer.Sender.{for_pump, for_history}
use mathlib.Core.Option.{some-injective}
use file_share_app.Transfer.Sender.Kept.{is_plain, IsStable}

module _ (c : Crypto) where
  abbrev pub tells : Utf16 → Effect c → Bool
  tells id (Effect.sends_file_text n (ControlMessage.file_complete file_id checksum)) =
      file_id == id
  tells id _ = false

  -- FILE_COMPLETE was sent for an id.
  abbrev pub told : Utf16 → List (Effect c) → Bool
  told id [] = false
  told id (e ∷ es) = tells id e || told id es

  abbrev ends : Effect c → Bool
  ends (Effect.sends_file_text n (ControlMessage.transfer_complete id)) = true
  ends _ = false

  -- TRANSFER_COMPLETE was sent.
  abbrev pub ended : List (Effect c) → Bool
  ended [] = false
  ended (e ∷ es) = ends e || ended es

  pub told-append :
      (id : Utf16) (es fs : List (Effect c)) → told id (es ++ fs) ≡ (told id es || told id fs)
  told-append id [] fs = refl
  told-append id (e ∷ es) fs = ground (arith, told-append id es fs)

  pub ended-append : (es fs : List (Effect c)) → ended (es ++ fs) ≡ (ended es || ended fs)
  ended-append [] fs = refl
  ended-append (e ∷ es) fs = ground (arith, ended-append es fs)

  pub told_more :
      (id : Utf16) (es fs : List (Effect c)) → told id es ≡ true → told id (es ++ fs) ≡ true
  told_more id es fs h = ground (arith, told-append id es fs)

  -- Every item before index `i` was told.
  abbrev pub ToldBefore : List QueuedFileWithMeta → ℕ → List (Effect c) → Type 0
  ToldBefore items i es =
      (j : ℕ) (item : QueuedFileWithMeta)
      → get_elem? items j ≡ some item
      → j < i
      → told item.metadata.id es ≡ true

  -- How many items a loop has sent.
  abbrev pub reached : Waiting → ℕ
  reached (for_pump i pump) = i
  reached (for_history i) = suc i

  pub record IsOrderly (items : List QueuedFileWithMeta) (es : List (Effect c))
      (queue : List QueuedFileWithMeta) (loops : Dict ℕ AcceptLoop) (peer : Option ℕ) : Type 0 where
    pub same : queue ≡ items
    pub peered : is_some peer ≡ true
    pub sent :
        (n : ℕ) (l : AcceptLoop) → get n loops ≡ some l → ToldBefore items (reached l.waiting) es
    pub over : ended es ≡ true → (j : ℕ) → ToldBefore items j es

  abbrev pub Orders :
      List QueuedFileWithMeta
      → List (Effect c)
      → ℕ
      → ℕ
      → List QueuedFileWithMeta
      → Dict ℕ AcceptLoop
      → Option ℕ
      → Type 0
  Orders items es attempts timers queue loops peer = IsOrderly items es queue loops peer

  pub before_more :
      (items : List QueuedFileWithMeta) (i : ℕ) (es fs : List (Effect c))
      → ToldBefore items i es
      → ToldBefore items i (es ++ fs)
  before_more items i es fs h j item e lt = told_more item.metadata.id es fs (h j item e lt)

  pub effect-IsOrderly :
      {items : List QueuedFileWithMeta} {es : List (Effect c)} {queue : List QueuedFileWithMeta}
      {loops : Dict ℕ AcceptLoop} {peer : Option ℕ} (e : Effect c)
      → ends e ≡ false
      → IsOrderly items es queue loops peer
      → IsOrderly items (es ++ e ∷ []) queue loops peer
  effect-IsOrderly {items} {es} e other h = record {
    same = h.same;
    peered = h.peered;
    sent = λ n l g. before_more items (reached l.waiting) es (e ∷ []) (h.sent n l g);
    over = λ done j.
        before_more items j es (e ∷ [])
          (h.over (ground (arith, ended-append es (e ∷ []), other)) j);
  }

  plain_ends : (e : Effect c) → is_plain c e ≡ true → ends e ≡ false
  plain_ends (Effect.sends_file_text n (ControlMessage.transfer_complete id)) h = cc
  plain_ends _ h = refl

  pub repeer-IsOrderly :
      {items : List QueuedFileWithMeta} {es : List (Effect c)} {queue : List QueuedFileWithMeta}
      {loops : Dict ℕ AcceptLoop} {peer : Option ℕ} (n : ℕ)
      → IsOrderly items es queue loops peer
      → IsOrderly items es queue loops (some n)
  repeer-IsOrderly n h = record { same = h.same; peered = refl; sent = h.sent; over = h.over }

  pub Orders-IsStable : (items : List QueuedFileWithMeta) → IsStable c (Orders items)
  Orders-IsStable items = record {
    adds = λ e plain h. effect-IsOrderly e (plain_ends e plain) h;
    loses = λ e h. h;
    drops = λ h. h;
    retries = λ n e h. effect-IsOrderly (Effect.creates_offer n) refl (repeer-IsOrderly n h);
  }

  -- A loop that is set has sent what it says, and one that is gone says nothing.
  pub set-IsOrderly :
      {items : List QueuedFileWithMeta} {es : List (Effect c)} {queue : List QueuedFileWithMeta}
      {loops : Dict ℕ AcceptLoop} {peer : Option ℕ} (n : ℕ) (l : AcceptLoop)
      → ToldBefore items (reached l.waiting) es
      → IsOrderly items es queue loops peer
      → IsOrderly items es queue (set n l loops) peer
  set-IsOrderly {items} {es} {queue} {loops} n l told_it h = record {
    same = h.same;
    peered = h.peered;
    sent = λ m r g. chosen m r (eqb n m) (sym (get-set n m l loops) ∙ g);
    over = h.over;
  }
    where
      chosen :
          (m : ℕ) (r : AcceptLoop) (b : Bool)
          → (if b then some l else get m loops) ≡ some r
          → ToldBefore items (reached r.waiting) es
      chosen m r true e =
          subst (λ x. ToldBefore items (reached x.waiting) es) (some-injective l r e) told_it
      chosen m r false e = h.sent m r e

  pub delete-IsOrderly :
      {items : List QueuedFileWithMeta} {es : List (Effect c)} {queue : List QueuedFileWithMeta}
      {loops : Dict ℕ AcceptLoop} {peer : Option ℕ} (n : ℕ)
      → IsOrderly items es queue loops peer
      → IsOrderly items es queue (delete n loops) peer
  delete-IsOrderly {items} {es} {queue} {loops} n h = record {
    same = h.same;
    peered = h.peered;
    sent = λ m r g. left m r (eqb n m) (sym (get-delete n m loops) ∙ g);
    over = h.over;
  }
    where
      left :
          (m : ℕ) (r : AcceptLoop) (b : Bool)
          → (if b then none else get m loops) ≡ some r
          → ToldBefore items (reached r.waiting) es
      left m r true e = cc
      left m r false e = h.sent m r e

pub get_elem_below :
    (items : List QueuedFileWithMeta) (i j : ℕ) (item : QueuedFileWithMeta)
    → get_elem? items i ≡ none
    → get_elem? items j ≡ some item
    → j < i
get_elem_below [] i j item e g = cc
get_elem_below (x ∷ xs) zero j item e g = cc
get_elem_below (x ∷ xs) (suc i) zero item e g = omega arith
get_elem_below (x ∷ xs) (suc i) (suc j) item e g = omega (arith, get_elem_below xs i j item e g)
