-- ===== src/Sensors/Flow/Complete.antt =====
-- What reaches the message queue when nothing goes wrong.
use android_hardware_xiaomi.Common.{
  ℕ, Option, some, ◌+◌, ◌≤◌, ◌≡◌, ◌∙◌, refl, sym, ap, Bool, true, List, [], ◌∷◌, ◌++◌, length,
  length-append, arith, append_assoc, append-nil, if_intro,
}
use android_hardware_xiaomi.Sensors.WakeLock.{WakeLock, increment, decrement, wakelock_round}
use android_hardware_xiaomi.Sensors.Events.{SensorInfo, process_events}
use android_hardware_xiaomi.Sensors.Pending.{
  Event, Pending, is_empty, post, write_front, write_round, write_pending,
}
use android_hardware_xiaomi.Sensors.Pending.Order.{write_pending_order, post_order}
use android_hardware_xiaomi.Sensors.Flow.{
  Pipeline, Batch, Step, posts, writes, locks, releases, acknowledges, take_step, run, step_events,
  passed,
}
use android_hardware_xiaomi.Sensors.Flow.Order.{flow, posts_cases, decrement_keeps}

-- No write of the thread fails.
abbrev pub AllWritten : List Step → Type 0
AllWritten [] = Unit
AllWritten (posts b now available write_ok ∷ es) = AllWritten es
AllWritten (writes write_ok ∷ es) = (write_ok ≡ true) × AllWritten es
AllWritten (locks now ∷ es) = AllWritten es
AllWritten (releases created ∷ es) = AllWritten es
AllWritten (acknowledges timeout now processed ∷ es) = AllWritten es

-- The threads run and the events that wait leave room for some more.
abbrev pub HasRoom : Pipeline → ℕ → Pending → Type 0
HasRoom s more p = (p.wake.threads_run ≡ true) × (p.size + more ≤ s.limit)

post_keeps :
    (limit now available : ℕ) (ok : Bool) (events : List Event) (wakeups : ℕ) (locked : Bool)
    (p : Pending)
    → let p' = post limit now available ok events wakeups locked p in
      (p'.size ≤ p.size + length events) × (p'.wake.threads_run ≡ p.wake.threads_run)
unfolding post increment
post_keeps limit now available ok events wakeups locked p = (ground arith, ground arith)

write_round_keeps :
    (wakes : ℕ → Bool) (quantum : ℕ) (q : List (List Event × ℕ)) (p : Pending)
    → let p' = write_round wakes quantum true q p in
      (p'.size ≤ p.size) × (p'.wake.threads_run ≡ p.wake.threads_run)
unfolding write_round write_front
write_round_keeps wakes quantum [] p = (omega arith, refl)
write_round_keeps wakes quantum ((front, wakeups) ∷ rest) p = (omega arith, refl)

write_pending_keeps :
    (wakes : ℕ → Bool) (quantum : ℕ) (p : Pending)
    → let p' = write_pending wakes quantum true p in
      (p'.size ≤ p.size) × (p'.wake.threads_run ≡ p.wake.threads_run)
unfolding write_pending
write_pending_keeps wakes quantum p =
    if_intro (λ (p' : Pending). (p'.size ≤ p.size) × (p'.wake.threads_run ≡ p.wake.threads_run))
      p.wake.threads_run _ p (write_round_keeps wakes quantum p.queue p) (omega arith, refl)

increment_keeps : (now : ℕ) (w : WakeLock) → (increment now 1 w).0.threads_run ≡ w.threads_run
unfolding increment
increment_keeps now w = ground arith

wakelock_round_keeps :
    (timeout now : ℕ) (processed : Option ℕ) (w : WakeLock)
    → (wakelock_round timeout now processed w).threads_run ≡ w.threads_run
unfolding wakelock_round
wakelock_round_keeps timeout now processed w = ground arith

no_events :
    (sensor : ℕ → SensorInfo) (gated lid_open : Bool) (index : ℕ) (events : List Event)
    → is_empty events ≡ true
    → (process_events sensor gated lid_open index events).0 ≡ []
unfolding process_events
no_events sensor gated lid_open index [] none = refl
no_events sensor gated lid_open index (e ∷ events) none = cc

posts_complete :
    (s : Pipeline) (b : Batch) (now available : ℕ) (ok : Bool) (more : ℕ) (p : Pending)
    → let new = step_events s (posts b now available ok) in
      let p' = take_step s (posts b now available ok) p in
      HasRoom s (length new + more) p → HasRoom s more p' × (flow p' ≡ flow p ++ new)
posts_complete s b now available ok more p (runs, room) =
    let new = step_events s (posts b now available ok) in
    posts_cases s b now available ok p (λ p'. HasRoom s more p' × (flow p' ≡ flow p ++ new))
      (λ nothing.
        let none = no_events s.sensor b.gated b.lid_open b.index b.events (ground arith) in
        ((runs, omega arith), rw none (sym (append-nil (flow p)))))
      (λ wakeups locked w same.
        let p' = record p { wake = w } in
        let (size, run_on) = post_keeps s.limit now available ok new wakeups locked p' in
        (
          (run_on ∙ same ∙ runs, omega arith),
          post_order s.limit now available ok new wakeups locked p' (omega arith),
        ))

-- While the threads run, no write of the thread of pending writes fails and the limit of the
-- pending queue leaves room for all that is posted, nothing is lost: what was written, followed
-- by what waits, is what was there at first followed by just the events that may pass, in the
-- order in which they were posted.
pub run_complete :
    (s : Pipeline) (es : List Step) (p : Pending)
    → AllWritten es
    → HasRoom s (length (passed s es)) p
    → flow (run s es p) ≡ flow p ++ passed s es
unfolding run take_step
run_complete s [] p all room = sym (append-nil _)
run_complete s (posts b now available ok ∷ es) p all (runs, room) =
    let e = posts b now available ok in
    let (room', this) =
      posts_complete s b now available ok (length (passed s es)) p
        (runs, omega (arith, length-append (step_events s e) (passed s es))) in
    run_complete s es (take_step s e p) all room'
    ∙ ap (λ xs. xs ++ passed s es) this
    ∙ append_assoc (flow p) (step_events s e) (passed s es)
run_complete s (writes write_ok ∷ es) p (written, all) (runs, room) =
    let wakes = λ (h : ℕ). (s.sensor h).wakes in
    let (size, run_on) = write_pending_keeps wakes s.quantum p in
    rw written (
      run_complete s es (write_pending wakes s.quantum true p) all (run_on ∙ runs, omega arith)
      ∙ ap (λ xs. xs ++ passed s es) (write_pending_order wakes s.quantum p))
run_complete s (locks now ∷ es) p all (runs, room) =
    run_complete s es (record p { wake = (increment now 1 p.wake).0 }) all
      (increment_keeps now p.wake ∙ runs, room)
run_complete s (releases created ∷ es) p all (runs, room) =
    run_complete s es (record p { wake = decrement 1 (some created) p.wake }) all
      (decrement_keeps 1 (some created) p.wake ∙ runs, room)
run_complete s (acknowledges timeout now processed ∷ es) p all (runs, room) =
    run_complete s es (record p { wake = wakelock_round timeout now processed p.wake }) all
      (wakelock_round_keeps timeout now processed p.wake ∙ runs, room)
