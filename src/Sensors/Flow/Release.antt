-- ===== src/Sensors/Flow/Release.antt =====
-- What the failed write of a batch does to the wake lock when a part of the batch was written.
use android_hardware_xiaomi.Common.{
  ℕ, ◌+◌, ◌-◌, ◌≤◌, ◌<◌, ◌≡◌, ◌∙◌, refl, ap, Bool, true, false, List, [], ◌∷◌, ◌++◌, length,
  length-drop, take, drop, arith, min, ltb, leb, none,
}
use android_hardware_xiaomi.Sensors.WakeLock.{WakeLock, increment, decrement}
use android_hardware_xiaomi.Sensors.Pending.{
  Event, Pending, post, give_back, write_front, write_round, write_pending,
}

module _ (limit now available quantum : ℕ) (wakes : ℕ → Bool) (events : List Event) (wakeups : ℕ)
    (p : Pending) (empty : p.queue ≡ []) (run : p.wake.threads_run ≡ true) (some_wake : 0 < wakeups)
    (part : available < length events) (room : p.size + (length events - available) ≤ limit)
    (one_write : length events - available ≤ quantum) where
  post_part :
      let p' = post limit now available true events wakeups true p in
      (p'.queue ≡ (drop available events, wakeups) ∷ [])
      × (p'.written ≡ p.written ++ take available events)
      × (p'.wake ≡ (increment now wakeups p.wake).0)
  unfolding post
  post_part =
      let all : min (length events) available ≡ available = omega arith in
      let left : ltb available (length events) ≡ true = ground arith in
      let fits : leb (p.size + (length events - available)) limit ≡ true = ground arith in
      rw (empty, all, left, fits) (refl, refl, refl)

  taken_back :
      (decrement wakeups none (increment now wakeups p.wake).0).ref_count ≡ p.wake.ref_count
  unfolding decrement increment
  taken_back = ground arith

  failed_write :
      (q : Pending)
      → q.queue ≡ (drop available events, wakeups) ∷ []
      → q.wake ≡ (increment now wakeups p.wake).0
      → let q' = write_pending wakes quantum false q in
        (q'.wake.ref_count ≡ p.wake.ref_count) × (q'.written ≡ q.written) × (q'.queue ≡ [])
  unfolding write_pending write_round write_front give_back increment
  failed_write q at woken =
      let len = length-drop available events in
      let runs : q.wake.threads_run ≡ true = ground arith in
      let short : ltb quantum (length (drop available events)) ≡ false = ground arith in
      let wake_some : ltb 0 wakeups ≡ true = ground arith in
      let count = ap (λ (w : WakeLock). (decrement wakeups none w).ref_count) woken ∙ taken_back in
      simp (runs, at, short, wake_some) (count, refl, refl)

  -- While the threads run, a batch with wake-up events that finds no other waiting and of which
  -- the message queue takes a part only holds no wake lock for that part once the write of the
  -- rest fails: the count is what it was before the batch, although the framework was given the
  -- first events and will acknowledge those that wake. The rest fits the limit of the pending
  -- queue and one write.
  pub partly_written_unheld :
      let posted = post limit now available true events wakeups true p in
      let p' = write_pending wakes quantum false posted in
      (p'.wake.ref_count ≡ p.wake.ref_count)
      × (p'.written ≡ p.written ++ take available events)
      × (p'.queue ≡ [])
  partly_written_unheld =
      let posted = post limit now available true events wakeups true p in
      let (at, written, woken) = post_part in
      let (count, same, none_left) = failed_write posted at woken in
      (count, same ∙ written, none_left)
