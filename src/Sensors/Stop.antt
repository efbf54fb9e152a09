-- ===== src/Sensors/Stop.antt =====
-- aidl/sensors/HalProxy.cpp, stopThreads and the loops that it ends, handlePendingWrites and
-- handleWakelocks. A thread holds its mutex from the test of its predicate to the sleep, but
-- stopThreads takes no mutex, so that its store and its notification can come between the two: a
-- step of the thread for each. The body of a loop ends by itself, since its calls have a timeout.
use android_hardware_xiaomi.Common.{
  ℕ, ◌≡◌, refl, Bool, true, false, ◌||◌, not, List, [], ◌∷◌, ◌++◌, arith, if◌then◌else◌,
}

-- Where a thread stands: before the test of the loop, before the test of the predicate, past it,
-- asleep, in the body, or returned.
pub data Position : Type 0 where
  at_loop at_predicate falling_asleep asleep in_body returned : Position

-- A step of the thread by itself; `work` is its predicate without the flag: that events are pending,
-- or that the count is positive.
unfoldable pub thread_step : Bool → Bool → Position → Position
thread_step threads_run work at_loop = if threads_run then at_predicate else returned
thread_step threads_run work at_predicate =
    if work || not threads_run then in_body else falling_asleep
thread_step threads_run work falling_asleep = asleep
thread_step threads_run work asleep = asleep
thread_step threads_run work in_body = at_loop
thread_step threads_run work returned = returned

-- notify_one.
unfoldable pub notify : Position → Position
notify at_loop = at_loop
notify at_predicate = at_predicate
notify falling_asleep = falling_asleep
notify asleep = at_predicate
notify in_body = in_body
notify returned = returned

pub record Threads : Type 0 where
  pub threads_run : Bool
  pub unread_events : ℕ
  pub wakelock_queue : List ℕ
  pub pending_writes : Position
  pub wakelocks : Position

-- stopThreads up to the joins; whether each queue and its flag are there. The events that were not
-- read are taken out of the queue, which lets a blocked write end.
unfoldable pub stop_threads : Bool → Bool → Threads → Threads
unfolding notify
stop_threads has_event_queue has_wakelock_queue t = record {
  threads_run = false;
  unread_events = if has_event_queue then 0 else t.unread_events;
  wakelock_queue = if has_wakelock_queue then t.wakelock_queue ++ 0 ∷ [] else t.wakelock_queue;
  pending_writes = notify t.pending_writes;
  wakelocks = notify t.wakelocks;
}

-- Steps of both threads; the predicates hold or not, at every turn anew.
unfoldable pub run_threads : List (Bool × Bool) → Threads → Threads
unfolding thread_step
run_threads [] t = t
run_threads ((pending, counted) ∷ turns) t = run_threads turns (record t {
  pending_writes = thread_step t.threads_run pending t.pending_writes;
  wakelocks = thread_step t.threads_run counted t.wakelocks;
})

-- Whether a thread has tested its predicate and not yet gone to sleep.
abbrev pub misses_notify : Position → Bool
misses_notify at_loop = false
misses_notify at_predicate = false
misses_notify falling_asleep = true
misses_notify asleep = false
misses_notify in_body = false
misses_notify returned = false

-- Where a stopped thread ends.
abbrev pub end_of : Position → Position
end_of p = if misses_notify p then asleep else returned

three_steps :
    (p : Position) (a b c : Bool)
    → thread_step false c (thread_step false b (thread_step false a (notify p))) ≡ end_of p
unfolding thread_step notify
three_steps at_loop a b c = refl
three_steps at_predicate a b c = ground arith
three_steps falling_asleep a b c = refl
three_steps asleep a b c = ground arith
three_steps in_body a b c = refl
three_steps returned a b c = refl

end_stays : (p : Position) (a : Bool) → thread_step false a (end_of p) ≡ end_of p
unfolding thread_step
end_stays at_loop a = refl
end_stays at_predicate a = refl
end_stays falling_asleep a = refl
end_stays asleep a = refl
end_stays in_body a = refl
end_stays returned a = refl

run_threads_stay :
    (p q : Position) (turns : List (Bool × Bool)) (t : Threads)
    → t.threads_run ≡ false
    → t.pending_writes ≡ end_of p
    → t.wakelocks ≡ end_of q
    → let r = run_threads turns t in (r.pending_writes ≡ end_of p) × (r.wakelocks ≡ end_of q)
unfolding run_threads
run_threads_stay p q [] t stopped writes wakes = (writes, wakes)
run_threads_stay p q ((a, b) ∷ turns) t stopped writes wakes =
    run_threads_stay p q turns _ stopped (rw (stopped, writes) (end_stays p a))
      (rw (stopped, wakes) (end_stays q b))

-- From the third step after a stop on, each of the two threads has returned, so that its join
-- ends, unless it stood between the test of its predicate and the sleep when stopThreads notified
-- it: then it sleeps, however long the join waits.
pub stop_threads_ends :
    (events wakelocks : Bool) (t : Threads) (a b c : Bool × Bool) (turns : List (Bool × Bool))
    → let r = run_threads (a ∷ b ∷ c ∷ turns) (stop_threads events wakelocks t) in
      (r.pending_writes ≡ (if misses_notify t.pending_writes then asleep else returned))
      × (r.wakelocks ≡ (if misses_notify t.wakelocks then asleep else returned))
unfolding stop_threads run_threads
stop_threads_ends events wakelocks t (a, a') (b, b') (c, c') turns =
    run_threads_stay t.pending_writes t.wakelocks turns _ refl (three_steps t.pending_writes a b c)
      (three_steps t.wakelocks a' b' c')
