-- ===== src/Sensors/Flow/Order.antt =====
-- The order of the events on their way, whatever is dropped.
use mathlib.Core.List.{Sublist, sublist-append_left, sublist-append_right}
use mathlib.Core.List.Sublist as Sub
use android_hardware_xiaomi.Common.{
  ℕ, ◌+◌, ◌-◌, ◌≡◌, ◌⊎◌, inl, inr, refl, sym, subst, Bool, true, false, ◌&&◌, not, ◌||◌, List, [],
  ◌∷◌, ◌++◌, length, take, drop, arith, append_assoc, append-nil, if_intro, if◌then◌else◌, ◌==◌,
  Bool-cases, Option, some, ltb, leb, take-append-drop,
}
use android_hardware_xiaomi.Sensors.WakeLock.{WakeLock, decrement}
use android_hardware_xiaomi.Sensors.Events.{process_events, post_events}
use android_hardware_xiaomi.Sensors.Pending.{
  Event, Pending, is_empty, direct_write, post, write_front, write_round, write_pending, waiting,
}
use android_hardware_xiaomi.Sensors.Pending.Order.{
  append_rest, direct_write_cases, write_pending_order,
}
use android_hardware_xiaomi.Sensors.Flow.{
  Pipeline, Batch, Step, posts, writes, locks, releases, acknowledges, take_step, run, step_events,
  passed,
}

-- What was written, followed by what waits.
abbrev pub flow : Pending → List Event
flow p = p.written ++ waiting p.queue

take-sublist : (n : ℕ) (xs : List Event) → Sublist (take n xs) xs
take-sublist n xs =
    subst (λ ys. Sublist (take n xs) ys) (take-append-drop n xs) (sublist-append_left _ _)

drop-sublist : (n : ℕ) (xs : List Event) → Sublist (drop n xs) xs
drop-sublist n xs =
    subst (λ ys. Sublist (drop n xs) ys) (take-append-drop n xs) (sublist-append_right _ _)

of_eq : {xs ys : List Event} → xs ≡ ys → Sublist xs ys
of_eq {xs} e = subst (λ zs. Sublist xs zs) e (Sub.refl xs)

module _ (written events : List Event) where
  append_some :
      (n : ℕ) (q : List (List Event × ℕ))
      → (q ≡ []) ⊎ (n ≡ 0)
      → Sublist ((written ++ take n events) ++ waiting q) ((written ++ waiting q) ++ events)
  append_some n q (inl e) =
      rw e (simp (append-nil) (Sub.append (Sub.refl written) (take-sublist n events)))
  append_some n q (inr e) = rw e (simp (append-nil) (sublist-append_left _ _))

post-sublist :
    (limit now available : ℕ) (ok : Bool) (events : List Event) (wakeups : ℕ) (locked : Bool)
    (p : Pending)
    → Sublist (flow (post limit now available ok events wakeups locked p)) (flow p ++ events)
unfolding post
post-sublist limit now available ok events wakeups locked p =
    let n = direct_write available ok events p in
    let first = direct_write_cases available ok events p in
    if_intro (λ (p' : Pending). Sublist (flow p') (flow p ++ events))
      (ltb n (length events) && leb (p.size + (length events - n)) limit) _ _
      (of_eq (append_rest p.written events wakeups n p.queue first))
      (append_some p.written events n p.queue first)

write_front-sublist :
    (wakes : ℕ → Bool) (quantum : ℕ) (front : List Event) (wakeups : ℕ)
    (rest : List (List Event × ℕ)) (p : Pending)
    → Sublist
        (flow (write_front wakes quantum false front wakeups rest p))
        (p.written ++ (front ++ waiting rest))
unfolding write_front
write_front-sublist wakes quantum front wakeups rest p =
    if_intro
      (λ (q : List (List Event × ℕ)).
        Sublist (p.written ++ waiting q) (p.written ++ (front ++ waiting rest)))
      (ltb quantum (length front)) ((drop quantum front, wakeups) ∷ rest) rest
      (Sub.append (Sub.refl p.written)
        (Sub.append (drop-sublist quantum front) (Sub.refl (waiting rest))))
      (Sub.append (Sub.refl p.written) (sublist-append_right front (waiting rest)))

write_round-sublist :
    (wakes : ℕ → Bool) (quantum : ℕ) (q : List (List Event × ℕ)) (p : Pending)
    → p.queue ≡ q
    → Sublist (flow (write_round wakes quantum false q p)) (flow p)
unfolding write_round
write_round-sublist wakes quantum [] p e = Sub.refl (flow p)
write_round-sublist wakes quantum ((front, wakeups) ∷ rest) p e =
    subst
      (λ (q : List (List Event × ℕ)).
        Sublist (flow (write_front wakes quantum false front wakeups rest p))
          (p.written ++ waiting q))
      (sym e) (write_front-sublist wakes quantum front wakeups rest p)

write_pending-sublist :
    (wakes : ℕ → Bool) (quantum : ℕ) (ok : Bool) (p : Pending)
    → Sublist (flow (write_pending wakes quantum ok p)) (flow p)
unfolding write_pending
write_pending-sublist wakes quantum true p = of_eq (write_pending_order wakes quantum p)
write_pending-sublist wakes quantum false p =
    if_intro (λ (p' : Pending). Sublist (flow p') (flow p)) p.wake.threads_run _ p
      (write_round-sublist wakes quantum p.queue p refl) (Sub.refl (flow p))

pub decrement_keeps :
    (delta : ℕ) (start : Option ℕ) (w : WakeLock)
    → (decrement delta start w).threads_run ≡ w.threads_run
unfolding decrement
decrement_keeps delta start w = ground arith

-- A batch is left out, or goes to the pending queue with a wake lock whose threads run as before.
pub posts_cases :
    (s : Pipeline) (b : Batch) (now available : ℕ) (ok : Bool) (p : Pending)
    → let e = posts b now available ok in
      (P : Pending → Type 0)
      → ((is_empty b.events || not p.wake.threads_run) ≡ true → P p)
      → ((wakeups : ℕ) (locked : Bool) (w : WakeLock)
          → w.threads_run ≡ p.wake.threads_run
          → P (
              post s.limit now available ok
                (step_events s e)
                wakeups
                locked
                (record p { wake = w })))
      → P (take_step s e p)
unfolding take_step post_events
posts_cases s b now available ok p P left_out posted =
    let processed = process_events s.sensor b.gated b.lid_open b.index b.events in
    let release = processed.1 == 0 && b.locked in
    let w = if release then decrement 1 (some b.created) p.wake else p.wake in
    let same =
      if_intro (λ (w' : WakeLock). w'.threads_run ≡ p.wake.threads_run) release
        (decrement 1 (some b.created) p.wake) p.wake (decrement_keeps 1 (some b.created) p.wake)
        refl in
    elim (Bool-cases (is_empty b.events || not p.wake.threads_run)) [
      | inl nothing ↦ rw nothing (left_out nothing)
      | inr goes ↦ rw goes (posted processed.1 (b.locked && not release) w same)
    ]

take_step-sublist :
    (s : Pipeline) (e : Step) (p : Pending)
    → Sublist (flow (take_step s e p)) (flow p ++ step_events s e)
take_step-sublist s (posts b now available ok) p =
    let new = step_events s (posts b now available ok) in
    posts_cases s b now available ok p (λ p'. Sublist (flow p') (flow p ++ new))
      (λ nothing. sublist-append_left (flow p) new)
      (λ wakeups locked w same.
        post-sublist s.limit now available ok new wakeups locked (record p { wake = w }))
take_step-sublist s (writes write_ok) p =
    unfold take_step in
    simp (append-nil) (write_pending-sublist (λ h. (s.sensor h).wakes) s.quantum write_ok p)
take_step-sublist s (locks now) p = unfold take_step in of_eq (sym (append-nil (flow p)))
take_step-sublist s (releases created) p = unfold take_step in of_eq (sym (append-nil (flow p)))
take_step-sublist s (acknowledges timeout now processed) p =
    unfold take_step in of_eq (sym (append-nil (flow p)))

-- Over every order of posted batches and of rounds of the threads, whatever the message queue
-- takes, refuses or drops: what was written, followed by what waits, is what was there at first
-- followed by the events that may pass, in the order in which they were posted, with some left
-- out. An event stands here with all its data.
pub run-Sublist :
    (s : Pipeline) (es : List Step) (p : Pending)
    → Sublist (flow (run s es p)) (flow p ++ passed s es)
unfolding run
run-Sublist s [] p = simp (append-nil) (Sub.refl (flow p))
run-Sublist s (e ∷ es) p = Sub.trans (run-Sublist s es (take_step s e p)) (
    subst (λ (xs : List Event). Sublist (flow (take_step s e p) ++ passed s es) xs)
      (append_assoc (flow p) (step_events s e) (passed s es))
      (Sub.append (take_step-sublist s e p) (Sub.refl (passed s es))))
