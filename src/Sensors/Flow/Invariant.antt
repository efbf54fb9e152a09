-- ===== src/Sensors/Flow/Invariant.antt =====
-- What holds of the pending queue and the shared wake lock over every order of steps.
use android_hardware_xiaomi.Common.{
  ℕ, ◌<◌, ◌≡◌, Bool, false, ◌&&◌, not, List, [], ◌∷◌, Option, none, some, arith, ltb, ◌==◌, ◌||◌,
  length, take, if◌then◌else◌, if_intro,
}
use android_hardware_xiaomi.Sensors.WakeLock.{
  WakeLock, Balanced, increment, decrement, wakelock_round,
}
use android_hardware_xiaomi.Sensors.Events.{process_events, post_events}
use android_hardware_xiaomi.Sensors.Pending.{
  Event, Pending, Inv, is_empty, count_wakeup_events, post, give_back, write_front, write_round,
  write_pending, post-Inv, write_pending-Inv,
}
use android_hardware_xiaomi.Sensors.Flow.Order.{posts_cases}
use android_hardware_xiaomi.Sensors.Flow.{
  Pipeline, Batch, Step, posts, writes, locks, releases, acknowledges, take_step, run, step_events,
}

-- The count of waiting events is exact and within the limit, and the system's wake lock is held just
-- while the shared count is positive.
pub record IsSound (s : Pipeline) (p : Pending) : Type 0 where
  pub queue : Inv s.limit p
  pub wake : Balanced p.wake

increment-Balanced :
    (now delta : ℕ) (w : WakeLock) → 0 < delta → Balanced w → Balanced (increment now delta w).0
unfolding increment
increment-Balanced now delta w pos b = ground arith

decrement-Balanced :
    (delta : ℕ) (start : Option ℕ) (w : WakeLock) → Balanced w → Balanced (decrement delta start w)
unfolding decrement
decrement-Balanced delta start w b = ground arith

wakelock_round-Balanced :
    (timeout now : ℕ) (processed : Option ℕ) (w : WakeLock)
    → Balanced w
    → Balanced (wakelock_round timeout now processed w)
unfolding wakelock_round
wakelock_round-Balanced timeout now processed w b = ground arith

some_wake :
    (wakeups : ℕ) (locked : Bool)
    → ((locked && not (wakeups == 0 && locked)) && wakeups == 0) ≡ false
some_wake wakeups locked = ground arith

post-Balanced :
    (limit now available : ℕ) (ok : Bool) (events : List Event) (wakeups : ℕ) (locked : Bool)
    (p : Pending)
    → (locked && wakeups == 0) ≡ false
    → Balanced p.wake
    → Balanced (post limit now available ok events wakeups locked p).wake
unfolding post
post-Balanced limit now available ok events wakeups locked p some_wake b =
    let taken = increment-Balanced now wakeups p.wake in ground arith

give_back-Balanced :
    (wakes : ℕ → Bool) (quantum : ℕ) (front : List Event) (wakeups : ℕ) (w : WakeLock)
    → Balanced w
    → Balanced (give_back wakes quantum front wakeups w)
unfolding give_back
give_back-Balanced wakes quantum front wakeups w b =
    if_intro Balanced (ltb 0 wakeups) _ w
      (if_intro Balanced (ltb quantum (length front)) _ _
        (decrement-Balanced (count_wakeup_events wakes (take quantum front)) none w b)
        (decrement-Balanced wakeups none w b))
      b

write_round-Balanced :
    (wakes : ℕ → Bool) (quantum : ℕ) (ok : Bool) (q : List (List Event × ℕ)) (p : Pending)
    → Balanced p.wake
    → Balanced (write_round wakes quantum ok q p).wake
unfolding write_round write_front
write_round-Balanced wakes quantum ok [] p b = b
write_round-Balanced wakes quantum ok ((front, wakeups) ∷ rest) p b =
    if_intro Balanced ok p.wake _ b (give_back-Balanced wakes quantum front wakeups p.wake b)

write_pending-Balanced :
    (wakes : ℕ → Bool) (quantum : ℕ) (ok : Bool) (p : Pending)
    → Balanced p.wake
    → Balanced (write_pending wakes quantum ok p).wake
unfolding write_pending
write_pending-Balanced wakes quantum ok p b =
    if_intro (λ (p' : Pending). Balanced p'.wake) p.wake.threads_run _ p
      (write_round-Balanced wakes quantum ok p.queue p b) b

post_events-Balanced :
    (s : Pipeline) (b : Batch) (now available : ℕ) (ok : Bool) (p : Pending)
    → Balanced p.wake
    → Balanced (take_step s (posts b now available ok) p).wake
unfolding take_step post_events
post_events-Balanced s b now available ok p balanced =
    let processed = process_events s.sensor b.gated b.lid_open b.index b.events in
    let release = processed.1 == 0 && b.locked in
    let w = if release then decrement 1 (some b.created) p.wake else p.wake in
    let released =
      if_intro Balanced release (decrement 1 (some b.created) p.wake) p.wake
        (decrement-Balanced 1 (some b.created) p.wake balanced) balanced in
    if_intro (λ (p' : Pending). Balanced p'.wake) (is_empty b.events || not p.wake.threads_run) p
      (post s.limit now available ok processed.0 processed.1 (b.locked && not release)
        (record p { wake = w }))
      balanced
      (post-Balanced s.limit now available ok processed.0 processed.1 (b.locked && not release)
        (record p { wake = w }) (some_wake processed.1 b.locked) released)

take_step-Inv :
    (s : Pipeline) (e : Step) (p : Pending) → Inv s.limit p → Inv s.limit (take_step s e p)
take_step-Inv s (posts b now available ok) p v =
    posts_cases s b now available ok p (Inv s.limit) (λ nothing. v)
      (λ wakeups locked w same.
        post-Inv s.limit now available ok (step_events s (posts b now available ok)) wakeups locked
          (record p { wake = w }) (record { counted = v.counted; bounded = v.bounded }))
take_step-Inv s (writes ok) p v =
    unfold take_step in write_pending-Inv s.limit (λ h. (s.sensor h).wakes) s.quantum ok p v
take_step-Inv s (locks now) p v =
    unfold take_step in record { counted = v.counted; bounded = v.bounded }
take_step-Inv s (releases created) p v =
    unfold take_step in record { counted = v.counted; bounded = v.bounded }
take_step-Inv s (acknowledges timeout now processed) p v =
    unfold take_step in record { counted = v.counted; bounded = v.bounded }

take_step-Balanced :
    (s : Pipeline) (e : Step) (p : Pending) → Balanced p.wake → Balanced (take_step s e p).wake
take_step-Balanced s (posts b now available ok) p balanced =
    post_events-Balanced s b now available ok p balanced
take_step-Balanced s (writes ok) p balanced =
    unfold take_step in write_pending-Balanced (λ h. (s.sensor h).wakes) s.quantum ok p balanced
take_step-Balanced s (locks now) p balanced =
    unfold take_step in increment-Balanced now 1 p.wake (omega arith) balanced
take_step-Balanced s (releases created) p balanced =
    unfold take_step in decrement-Balanced 1 (some created) p.wake balanced
take_step-Balanced s (acknowledges timeout now processed) p balanced =
    unfold take_step in wakelock_round-Balanced timeout now processed p.wake balanced

-- Whatever batches the sub-HALs post, wake locks are made and released for them, the message
-- queue takes or refuses and the framework acknowledges or not, in any order: the size that
-- HalProxy keeps of its pending queue is the number of events that wait and within the limit, and
-- the system's wake lock is held exactly while the shared count is positive, if that is so at
-- first.
pub run-IsSound :
    (s : Pipeline) (es : List Step) (p : Pending) → IsSound s p → IsSound s (run s es p)
unfolding run
run-IsSound s [] p v = v
run-IsSound s (e ∷ es) p v =
    run-IsSound s es (take_step s e p)
      (record { queue = take_step-Inv s e p v.queue; wake = take_step-Balanced s e p v.wake })
