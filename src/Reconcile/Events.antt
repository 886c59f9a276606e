-- ===== src/Reconcile/Events.antt =====
-- internal/reconcile/types.go: the bounded buffer of the events.
use df_ai.Base.{
  Bool-cases, List, String, [], ap, append-nil, append_assoc, arith, drop, false, if◌then◌else◌,
  inl, inr, length, length-append, ltb, ltb→lt, negsuc, pos, refl, suc, sym, take, zero, ℕ, ℤ, ◌++◌,
  ◌-◌, ◌<◌, ◌==◌, ◌||◌, ◌∙◌, ◌∷◌, ◌≡◌, ◌≤◌,
}
use df_ai.World.Coord.{Coord}

pub data DivergenceReason : Type 0 where
  reason_stalled reason_contradicted reason_explicit_blocker : DivergenceReason

pub record DivergenceEvent : Type 0 where
  pub coord : Coord
  pub action : String
  pub plan_node_id : String
  pub predicted_at : ℕ
  pub emitted_at : ℕ
  pub reason : DivergenceReason
  pub idle_seconds : ℤ
  pub predicted_flags : ℕ
  pub observed_flags : ℕ
  pub note : String

-- The oldest event first; the capacity is positive.
pub record EventBuffer : Type 0 where
  pub events : List DivergenceEvent
  pub capacity : ℕ

unfoldable pub new_event_buffer : ℤ → EventBuffer
new_event_buffer (negsuc n) = record { events = []; capacity = 64 }
new_event_buffer (pos n) = record { events = []; capacity = if n == 0 then 64 else n }

unfoldable pub append : DivergenceEvent → EventBuffer → EventBuffer
append e b =
    if ltb (length b.events) b.capacity
    then record b { events = b.events ++ (e ∷ []) }
    else record b { events = drop 1 b.events ++ (e ∷ []) }

unfoldable pub append_all : List DivergenceEvent → EventBuffer → EventBuffer
unfolding append
append_all [] b = b
append_all (e ∷ es) b = append_all es (append e b)

abbrev reversed : List DivergenceEvent → List DivergenceEvent → List DivergenceEvent
reversed acc [] = acc
reversed acc (e ∷ es) = reversed (e ∷ acc) es

-- The loop goes from the last event down, over n of them.
unfoldable pub recent_events : ℤ → EventBuffer → List DivergenceEvent
recent_events (negsuc n) b = reversed [] b.events
recent_events (pos n) b =
    if n == 0 || ltb (length b.events) n
    then reversed [] b.events
    else take n (reversed [] b.events)

unfoldable pub event_count : EventBuffer → ℕ
event_count b = length b.events

-- The last `k` elements.
abbrev pub last_ones : ℕ → List DivergenceEvent → List DivergenceEvent
last_ones k es = drop (length es - k) es

drop-append_one :
    (k : ℕ) (xs : List DivergenceEvent) (e : DivergenceEvent)
    → k ≤ length xs
    → drop k xs ++ (e ∷ []) ≡ drop k (xs ++ (e ∷ []))
drop-append_one zero xs e h = refl
drop-append_one (suc k) [] e h = absurd (omega arith)
drop-append_one (suc k) (x ∷ xs) e h = drop-append_one k xs e (omega arith)

drop-drop : (k : ℕ) (xs : List DivergenceEvent) → drop 1 (drop k xs) ≡ drop (suc k) xs
drop-drop zero xs = refl
drop-drop (suc k) [] = refl
drop-drop (suc k) (x ∷ xs) = drop-drop k xs

drop-nil : (k : ℕ) → drop {A = DivergenceEvent} k [] ≡ []
drop-nil zero = refl
drop-nil (suc k) = refl

not_ltb : (a b : ℕ) → ltb a b ≡ false → b ≤ a
not_ltb a b h = ground arith

length-drop_lem : (k : ℕ) (xs : List DivergenceEvent) → length (drop k xs) ≡ length xs - k
length-drop_lem zero xs = omega arith
length-drop_lem (suc k) [] = omega arith
length-drop_lem (suc k) (x ∷ xs) = omega (arith, length-drop_lem k xs)

append-last_ones :
    (e : DivergenceEvent) (all : List DivergenceEvent) (b : EventBuffer)
    → 0 < b.capacity
    → b.events ≡ last_ones b.capacity all
    → (append e b).events ≡ last_ones b.capacity (all ++ (e ∷ []))
unfolding append
append-last_ones e all b positive h =
    let l = length all in
    let k = b.capacity in
    let now = ap length h ∙ length-drop_lem (l - k) all in
    let more = length-append all (e ∷ []) in
    elim (Bool-cases (ltb (length b.events) k)) [
      | inl room ↦
          let few : l < k = omega (arith, ltb→lt (length b.events) k room, now, positive) in
          let from : length (all ++ (e ∷ [])) - k ≡ 0 = omega (arith, few, more) in
          let all_kept : l - k ≡ 0 = omega (arith, few) in
          rw (room) (
            ap (λ xs. xs ++ (e ∷ [])) (h ∙ ap (λ i. drop i all) all_kept)
            ∙ sym (ap (λ i. drop i (all ++ (e ∷ []))) from))
      | inr full ↦
          let many : k ≤ l = omega (arith, not_ltb (length b.events) k full, now) in
          let from : length (all ++ (e ∷ [])) - k ≡ suc (l - k) = omega (arith, many, more) in
          rw (full) (
            ap (λ xs. drop 1 xs ++ (e ∷ [])) h
            ∙ ap (λ xs. xs ++ (e ∷ [])) (drop-drop (l - k) all)
            ∙ drop-append_one (suc (l - k)) all e (omega (arith, many, positive))
            ∙ sym (ap (λ i. drop i (all ++ (e ∷ []))) from))
    ]

append-capacity : (e : DivergenceEvent) (b : EventBuffer) → (append e b).capacity ≡ b.capacity
unfolding append
append-capacity e b = ground arith

-- A buffer that is within its capacity.
pub record IsBounded (b : EventBuffer) : Type 0 where
  pub positive : 0 < b.capacity
  pub fits : event_count b ≤ b.capacity

pub append-IsBounded :
    (e : DivergenceEvent) (b : EventBuffer) → IsBounded b → IsBounded (append e b)
unfolding append event_count
append-IsBounded e b h = record {
  positive = omega (arith, append-capacity e b, h.positive);
  fits = elim (Bool-cases (ltb (length b.events) b.capacity)) [
    | inl room ↦
        rw (room)
          (omega (arith, length-append b.events (e ∷ []), ltb→lt (length b.events) b.capacity room))
    | inr full ↦ rw (full) (
        omega (
          arith,
          length-append (drop 1 b.events) (e ∷ []),
          length-drop_lem 1 b.events,
          h.fits,
          h.positive,
        ))
  ];
}

append_all-last_ones :
    (es all : List DivergenceEvent) (b : EventBuffer)
    → 0 < b.capacity
    → b.events ≡ last_ones b.capacity all
    → (append_all es b).events ≡ last_ones b.capacity (all ++ es)
unfolding append_all
append_all-last_ones [] all b positive h = h ∙ ap (last_ones b.capacity) (sym (append-nil all))
append_all-last_ones (e ∷ es) all b positive h =
    let same = append-capacity e b in
    append_all-last_ones es (all ++ (e ∷ [])) (append e b) (omega (arith, same, positive))
      (append-last_ones e all b positive h ∙ ap (λ k. last_ones k (all ++ (e ∷ []))) (sym same))
    ∙ ap (λ k. last_ones k ((all ++ (e ∷ [])) ++ es)) same
    ∙ ap (last_ones b.capacity) (append_assoc all (e ∷ []) es)

new-positive : (n : ℤ) → 0 < (new_event_buffer n).capacity
unfolding new_event_buffer
new-positive (negsuc n) = omega arith
new-positive (pos n) = ground arith

new-empty : (n : ℤ) → (new_event_buffer n).events ≡ []
unfolding new_event_buffer
new-empty (negsuc n) = refl
new-empty (pos n) = refl

-- After any events are appended to a new buffer, it holds the last of them, in their order, as many
-- as its capacity, and Len is at most the capacity.
pub append_all-new_event_buffer :
    (n : ℤ) (es : List DivergenceEvent)
    → let b = append_all es (new_event_buffer n) in
      (b.events ≡ last_ones (new_event_buffer n).capacity es)
      × (event_count b ≤ (new_event_buffer n).capacity)
unfolding event_count
append_all-new_event_buffer n es =
    let k = (new_event_buffer n).capacity in
    let kept =
      append_all-last_ones es [] (new_event_buffer n) (new-positive n)
        (new-empty n ∙ sym (drop-nil (0 - k))) in
    let size = length-drop_lem (length es - k) es in (kept, omega (arith, ap length kept, size))
