-- ===== src/Client/PeerConnection/Candidates.antt =====
-- The candidates of the other side.
use file_share_app.Base.{
  ℕ, ◌+◌, ◌≡◌, refl, sym, ap, subst, ◌∙◌, Bool, true, false, not, List, [], ◌∷◌, ◌++◌, append_assoc,
  All, Utf16, utf16_eq, ◌==◌, if◌then◌else◌, arith,
}
use file_share_app.Client.PeerConnection.{
  PeerConnectionManager, PeerRole, sender, receiver, Effect, adds_candidate, new_manager,
  attach_channel, next_candidate, go_on, description_set, candidate_added, add_remote_ice_candidate,
}

-- What concerns the candidates, in the order in which it happens.
pub data Event : Type 0 where
  remote_candidate : Utf16 → Event
  description_settled added : Event

unfoldable pub step : PeerConnectionManager → Event → PeerConnectionManager
unfolding description_set candidate_added add_remote_ice_candidate
step m (remote_candidate candidate) = add_remote_ice_candidate candidate m
step m description_settled = description_set m
step m added = candidate_added m

unfoldable pub run : PeerConnectionManager → List Event → PeerConnectionManager
run m [] = m
run m (e ∷ es) = run (step m e) es

abbrev candidate_of : Effect → List Utf16
candidate_of (adds_candidate candidate) = candidate ∷ []
candidate_of _ = []

-- The candidates that were given to the connection.
abbrev pub applied : List Effect → List Utf16
applied [] = []
applied (e ∷ es) = candidate_of e ++ applied es

applied-append : (es fs : List Effect) → applied (es ++ fs) ≡ applied es ++ applied fs
applied-append [] fs = refl
applied-append (e ∷ es) fs =
    ap (◌++◌ (candidate_of e)) (applied-append es fs)
    ∙ sym (append_assoc (candidate_of e) (applied es) (applied fs))

-- Those that came.
abbrev pub came : List Event → List Utf16
came [] = []
came (remote_candidate candidate ∷ es) = candidate ∷ came es
came (e ∷ es) = came es

abbrev pub flat : List (List Utf16) → List Utf16
flat [] = []
flat (l ∷ ls) = l ++ flat ls

-- The description is not settled a second time.
abbrev pub IsOnce : Event → Type 0
IsOnce description_settled = ⊥
IsOnce _ = Unit

abbrev pub copies : Utf16 → List Utf16 → ℕ
copies x [] = 0
copies x (y ∷ ys) = (if y == x then 1 else 0) + copies x ys

copies-append : (x : Utf16) (ys zs : List Utf16) → copies x (ys ++ zs) ≡ copies x ys + copies x zs
copies-append x [] zs = omega arith
copies-append x (y ∷ ys) zs = omega (arith, copies-append x ys zs)

-- Before the description is set everything waits.
record Gathers (seen : Utf16 → ℕ) (m : PeerConnectionManager) : Type 0 where
  unset : m.remote_description_set ≡ false
  pending : (x : Utf16) → copies x m.pending_remote_candidates ≡ seen x
  none_applied : applied m.outputs ≡ []
  no_loops : m.loops ≡ []

-- After it, what came was applied or is left to a loop.
record Applies (seen : Utf16 → ℕ) (m : PeerConnectionManager) : Type 0 where
  set : m.remote_description_set ≡ true
  all : (x : Utf16) → copies x (applied m.outputs) + copies x (flat m.loops) ≡ seen x

abbrev one_more : Utf16 → (Utf16 → ℕ) → Utf16 → ℕ
one_more candidate seen x = seen x + copies x (candidate ∷ [])

pick :
    (P : PeerConnectionManager → Type 0) (b : Bool) (s t : PeerConnectionManager)
    → (b ≡ true → P s)
    → (b ≡ false → P t)
    → P (if b then s else t)
pick P true s t g h = g refl
pick P false s t g h = h refl

add-Gathers :
    (seen : Utf16 → ℕ) (candidate : Utf16) (m : PeerConnectionManager)
    → Gathers seen m
    → Gathers (one_more candidate seen) (add_remote_ice_candidate candidate m)
unfolding add_remote_ice_candidate
add-Gathers seen candidate m h =
    pick (Gathers (one_more candidate seen)) (not m.remote_description_set) _ _
      (λ e. record {
        unset = h.unset;
        pending = λ x.
            omega
              (arith, copies-append x m.pending_remote_candidates (candidate ∷ []), h.pending x);
        none_applied = h.none_applied;
        no_loops = h.no_loops;
      })
      (λ e. absurd (ground (arith, h.unset)))

add-Applies :
    (seen : Utf16 → ℕ) (candidate : Utf16) (m : PeerConnectionManager)
    → Applies seen m
    → Applies (one_more candidate seen) (add_remote_ice_candidate candidate m)
unfolding add_remote_ice_candidate
add-Applies seen candidate m h =
    pick (Applies (one_more candidate seen)) (not m.remote_description_set) _ _
      (λ e. absurd (ground (arith, h.set))) (λ e. record { set = h.set; all = λ x. put_count x })
  where
    put_count :
        (x : Utf16)
        → copies x (applied (m.outputs ++ adds_candidate candidate ∷ [])) + copies x (flat m.loops)
          ≡ one_more candidate seen x
    put_count x =
        rw (applied-append m.outputs (adds_candidate candidate ∷ []))
          (omega (arith, copies-append x (applied m.outputs) (candidate ∷ []), h.all x))

next-Applies :
    (seen : Utf16 → ℕ) (rest : List Utf16) (m : PeerConnectionManager)
    → m.remote_description_set ≡ true
    → ((x : Utf16)
        → copies x (applied m.outputs) + (copies x rest + copies x (flat m.loops)) ≡ seen x)
    → Applies seen (next_candidate rest m)
unfolding next_candidate
next-Applies seen [] m e h = record { set = e; all = λ x. omega (arith, h x) }
next-Applies seen (y ∷ ys) m e h = record {
  set = e;
  all = λ x. rw (applied-append m.outputs (adds_candidate y ∷ [])) (
      omega (
        arith,
        copies-append x (applied m.outputs) (y ∷ []),
        copies-append x ys (flat m.loops),
        h x,
      ));
}

go_on-Applies :
    (seen : Utf16 → ℕ) (loops : List (List Utf16)) (m : PeerConnectionManager)
    → m.loops ≡ loops
    → Applies seen m
    → Applies seen (go_on loops m)
unfolding go_on
go_on-Applies seen [] m e h = h
go_on-Applies seen (rest ∷ loops) m e h =
    next-Applies seen rest (record m { loops = loops }) h.set
      (λ x. omega (
        arith,
        copies-append x rest (flat loops),
        subst (λ l. copies x (applied m.outputs) + copies x (flat l) ≡ seen x) e (h.all x),
      ))

idle-Gathers :
    (loops : List (List Utf16)) (seen : Utf16 → ℕ) (m : PeerConnectionManager)
    → loops ≡ []
    → Gathers seen m
    → Gathers seen (go_on loops m)
unfolding go_on
idle-Gathers [] seen m e h = h
idle-Gathers (l ∷ ls) seen m e h = cc

gather :
    (es : List Event) (seen : Utf16 → ℕ) (m : PeerConnectionManager)
    → All IsOnce es
    → Gathers seen m
    → Gathers (λ x. seen x + copies x (came es)) (run m es)
unfolding run step candidate_added
gather [] seen m q h = record {
  unset = h.unset;
  pending = λ x. omega (arith, h.pending x);
  none_applied = h.none_applied;
  no_loops = h.no_loops;
}
gather (remote_candidate candidate ∷ es) seen m (q, qs) h =
    let t = add_remote_ice_candidate candidate m in
    let g = gather es (one_more candidate seen) t qs (add-Gathers seen candidate m h) in
    record {
      unset = g.unset;
      pending = λ x. omega (arith, g.pending x);
      none_applied = g.none_applied;
      no_loops = g.no_loops;
    }
gather (description_settled ∷ es) seen m (q, qs) h = absurd q
gather (added ∷ es) seen m (q, qs) h =
    gather es seen (go_on m.loops m) qs (idle-Gathers m.loops seen m h.no_loops h)

apply :
    (es : List Event) (seen : Utf16 → ℕ) (m : PeerConnectionManager)
    → All IsOnce es
    → Applies seen m
    → Applies (λ x. seen x + copies x (came es)) (run m es)
unfolding run step candidate_added
apply [] seen m q h = record { set = h.set; all = λ x. omega (arith, h.all x) }
apply (remote_candidate candidate ∷ es) seen m (q, qs) h =
    let t = add_remote_ice_candidate candidate m in
    let g = apply es (one_more candidate seen) t qs (add-Applies seen candidate m h) in
    record { set = g.set; all = λ x. omega (arith, g.all x) }
apply (description_settled ∷ es) seen m (q, qs) h = absurd q
apply (added ∷ es) seen m (q, qs) h =
    apply es seen (go_on m.loops m) qs (go_on-Applies seen m.loops m refl h)

new-Gathers : (role : PeerRole) → Gathers (λ x. 0) (new_manager role)
unfolding new_manager attach_channel
new-Gathers sender = record {
  unset = refl;
  pending = λ x. refl;
  none_applied = refl;
  no_loops = refl;
}
new-Gathers receiver = record {
  unset = refl;
  pending = λ x. refl;
  none_applied = refl;
  no_loops = refl;
}

settle-Applies :
    (seen : Utf16 → ℕ) (m : PeerConnectionManager)
    → Gathers seen m
    → Applies seen (description_set m)
unfolding description_set
settle-Applies seen m h =
    next-Applies seen m.pending_remote_candidates (record m { remote_description_set = true }) refl
      (λ x. rw (h.none_applied, h.no_loops) (omega (arith, h.pending x)))

run-append : (es fs : List Event) (m : PeerConnectionManager) → run m (es ++ fs) ≡ run (run m es) fs
unfolding run
run-append [] fs m = refl
run-append (e ∷ es) fs m = run-append es fs (step m e)

-- A manager that gets candidates from the other side before and after its remote description is
-- set, which happens once: before, none is given to the connection; and at any time after, every
-- candidate was given to the connection, or is still in the loop over those that waited, as often as
-- it came, in all.
pub candidates_once :
    (role : PeerRole) (es es' : List Event) (x : Utf16)
    → All IsOnce es
    → All IsOnce es'
    → let m = run (new_manager role) (es ++ description_settled ∷ es') in
      (applied (run (new_manager role) es).outputs ≡ [])
      × (copies x (applied m.outputs) + copies x (flat m.loops)
          ≡ copies x (came es) + copies x (came es'))
unfolding run step
candidates_once role es es' x q q' =
    let g = gather es (λ x. 0) (new_manager role) q (new-Gathers role) in
    let before = run (new_manager role) es in
    let h =
      apply es' _ (description_set before) q'
        (settle-Applies (λ x. 0 + copies x (came es)) before g) in
    (
      g.none_applied,
      rw (run-append es (description_settled ∷ es') (new_manager role)) (omega (arith, h.all x)),
    )
