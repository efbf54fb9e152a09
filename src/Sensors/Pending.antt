-- ===== src/Sensors/Pending.antt =====
-- aidl/sensors/HalProxy.cpp, postEventsToMessageQueue and handlePendingWrites: the events that did
-- not fit the message queue. The message queue
-- belongs to the system: how much it takes and whether a write succeeds are arguments; `written`
-- is what it was given, oldest first. The limit of the pending queue is a constant of HalProxy.h,
-- which is not in the repository: a parameter.
pub mod Order
use android_hardware_xiaomi.Common.{
  ℕ, zero, suc, ◌⊎◌, inl, inr, ◌∙◌, ◌+◌, ◌-◌, ◌≤◌, ◌<◌, ◌≡◌, refl, sym, ap, Bool, true, false, ◌&&◌,
  List, [], ◌∷◌, ◌++◌, none, length, length-append, length-drop, take, drop, take-append-drop,
  arith, ltb, leb, if◌then◌else◌, min, max, append_assoc, append-nil,
}
use android_hardware_xiaomi.Sensors.WakeLock.{WakeLock, increment, decrement}

-- An event: what the service reads of it, and the rest of it, which only passes through.
pub record Event : Type 0 where
  pub sensor_handle : ℕ
  pub is_dynamic_meta : Bool
  pub dynamic_handle : ℕ
  pub scalar_is_one : Bool
  pub timestamp : ℕ
  pub payload : List ℕ

pub record Pending : Type 0 where
  pub queue : List (List Event × ℕ)
  pub size : ℕ
  pub most : ℕ
  pub written : List Event
  pub wake : WakeLock

abbrev pub is_empty {ℓ} : {A : Type ℓ} → List A → Bool
is_empty [] = true
is_empty (x ∷ xs) = false

-- countNumWakeupEvents, of the first events; the flag of a sensor is an argument.
abbrev pub count_wakeup_events : (ℕ → Bool) → List Event → ℕ
count_wakeup_events wakes [] = 0
count_wakeup_events wakes (e ∷ events) =
    (if wakes e.sensor_handle then 1 else 0) + count_wakeup_events wakes events

-- How many events are written at once: none while others wait.
unfoldable pub direct_write : ℕ → Bool → List Event → Pending → ℕ
direct_write available write_ok events p =
    if is_empty p.queue then (if write_ok then min (length events) available else 0) else 0

unfoldable pub post : ℕ → ℕ → ℕ → Bool → List Event → ℕ → Bool → Pending → Pending
unfolding direct_write
post limit now available write_ok events wakeups locked p =
    let n = direct_write available write_ok events p in
    let left = length events - n in
    let given = record p {
      written = p.written ++ take n events;
      wake = if locked then (increment now wakeups p.wake).0 else p.wake;
    } in
    if ltb n (length events) && leb (p.size + left) limit
    then record given {
      queue = p.queue ++ (drop n events, wakeups) ∷ [];
      size = p.size + left;
      most = max p.most (p.size + left);
    }
    else given

-- The wake-up events among those of a failed write, which are given back.
unfoldable pub give_back : (ℕ → Bool) → ℕ → List Event → ℕ → WakeLock → WakeLock
give_back wakes quantum front wakeups w =
    if ltb 0 wakeups
    then (if ltb quantum (length front)
        then decrement (count_wakeup_events wakes (take quantum front)) none w
        else decrement wakeups none w)
    else w

-- A round of handlePendingWrites on a queue with a front: the message queue holds `quantum`
-- events, and events of a write that fails are dropped.
unfoldable pub write_front :
    (ℕ → Bool) → ℕ → Bool → List Event → ℕ → List (List Event × ℕ) → Pending → Pending
unfolding give_back
write_front wakes quantum write_ok front wakeups rest p = record p {
  written = if write_ok then p.written ++ take (min (length front) quantum) front else p.written;
  wake = if write_ok then p.wake else give_back wakes quantum front wakeups p.wake;
  size = p.size - min (length front) quantum;
  queue = if ltb quantum (length front) then (drop quantum front, wakeups) ∷ rest else rest;
}

unfoldable pub write_round : (ℕ → Bool) → ℕ → Bool → List (List Event × ℕ) → Pending → Pending
write_round wakes quantum write_ok [] p = p
write_round wakes quantum write_ok ((front, wakeups) ∷ rest) p =
    write_front wakes quantum write_ok front wakeups rest p

unfoldable pub write_pending : (ℕ → Bool) → ℕ → Bool → Pending → Pending
unfolding write_round
write_pending wakes quantum write_ok p =
    if p.wake.threads_run then write_round wakes quantum write_ok p.queue p else p

-- The events that wait, oldest first.
abbrev pub waiting : List (List Event × ℕ) → List Event
waiting [] = []
waiting ((events, w) ∷ rest) = events ++ waiting rest

pub waiting-append : (xs ys : List (List Event × ℕ)) → waiting (xs ++ ys) ≡ waiting xs ++ waiting ys
waiting-append [] ys = refl
waiting-append ((events, w) ∷ xs) ys =
    rw (waiting-append xs ys) (sym (append_assoc events (waiting xs) (waiting ys)))

-- The size that is kept is the number of events that wait, within the limit.
pub record Inv (limit : ℕ) (p : Pending) : Type 0 where
  pub counted : p.size ≡ length (waiting p.queue)
  pub bounded : p.size ≤ limit

length-waiting-snoc :
    (q : List (List Event × ℕ)) (events : List Event) (w : ℕ)
    → length (waiting (q ++ (events, w) ∷ [])) ≡ length (waiting q) + length events
length-waiting-snoc q events w = omega (
  arith,
  ap length (waiting-append q ((events, w) ∷ [])),
  length-append (waiting q) (events ++ []),
  ap length (append-nil events),
)

-- Posting keeps the count of waiting events exact and within the limit, whatever the message queue
-- takes.
pub post-Inv :
    (limit now available : ℕ) (ok : Bool) (events : List Event) (wakeups : ℕ) (locked : Bool)
    (p : Pending)
    → Inv limit p
    → Inv limit (post limit now available ok events wakeups locked p)
unfolding post
post-Inv limit now available ok events wakeups locked p v =
    let n = direct_write available ok events p in
    let next = length-waiting-snoc p.queue (drop n events) wakeups in
    let left = length-drop n events in ground arith

write_front-Inv :
    (limit : ℕ) (wakes : ℕ → Bool) (quantum : ℕ) (ok : Bool) (front : List Event) (wakeups : ℕ)
    → (rest : List (List Event × ℕ)) (p : Pending) → p.size ≡ length (front ++ waiting rest)
    → p.size ≤ limit
    → Inv limit (write_front wakes quantum ok front wakeups rest p)
unfolding write_front
write_front-Inv limit wakes quantum ok front wakeups rest p counted bounded =
    let all = length-append front (waiting rest) in
    let left = length-append (drop quantum front) (waiting rest) in
    let dropped = length-drop quantum front in ground arith

write_round-Inv :
    (limit : ℕ) (wakes : ℕ → Bool) (quantum : ℕ) (ok : Bool) (q : List (List Event × ℕ))
    (p : Pending)
    → p.queue ≡ q
    → Inv limit p
    → Inv limit (write_round wakes quantum ok q p)
unfolding write_round
write_round-Inv limit wakes quantum ok [] p e v = v
write_round-Inv limit wakes quantum ok ((front, wakeups) ∷ rest) p e v =
    write_front-Inv limit wakes quantum ok front wakeups rest p
      (v.counted ∙ ap (λ q. length (waiting q)) e) v.bounded

-- A round of the writer keeps the count of waiting events exact and within the limit, whether the
-- write succeeds or its events are dropped.
pub write_pending-Inv :
    (limit : ℕ) (wakes : ℕ → Bool) (quantum : ℕ) (ok : Bool) (p : Pending)
    → Inv limit p
    → Inv limit (write_pending wakes quantum ok p)
unfolding write_pending
write_pending-Inv limit wakes quantum ok p v =
    let next = write_round-Inv limit wakes quantum ok p.queue p refl v in ground arith
