-- ===== src/Sensors/Pending/Order.antt =====
-- aidl/sensors/HalProxy.cpp, postEventsToMessageQueue and handlePendingWrites: the order in which
-- events reach the message queue.
use android_hardware_xiaomi.Common.{
  ℕ, zero, suc, ◌+◌, ◌≤◌, ◌≡◌, ◌⊎◌, inl, inr, ◌∙◌, refl, sym, ap, Bool, true, false, List, [], ◌∷◌,
  ◌++◌, length, take, take_all, drop, take-append-drop, arith, min, append_assoc, append-nil,
}
use android_hardware_xiaomi.Sensors.Pending.{
  Event, Pending, is_empty, direct_write, post, write_front, write_round, write_pending, waiting,
  waiting-append,
}

length_zero : (xs : List Event) → length xs ≤ 0 → xs ≡ []
length_zero [] le = refl
length_zero (x ∷ xs) le = ground arith

take-min : (n : ℕ) (xs : List Event) → take (min (length xs) n) xs ≡ take n xs
take-min zero [] = refl
take-min (suc n) [] = ap (λ m. take {A = Event} m []) no_events
  where
    no_events : min 0 (suc n) ≡ 0
    no_events = omega arith
take-min zero (x ∷ xs) = ap (λ m. take m (x ∷ xs)) no_room
  where
    no_room : min (suc (length xs)) 0 ≡ 0
    no_room = omega arith
take-min (suc n) (x ∷ xs) = ap (λ m. take m (x ∷ xs)) min_suc ∙ ap (λ ys. x ∷ ys) (take-min n xs)
  where
    min_suc : min (suc (length xs)) (suc n) ≡ suc (min (length xs) n)
    min_suc = omega arith

-- What is written now goes before what waits: nothing waits, or nothing is written now.
module _ (written events : List Event) (w : ℕ) where
  pub append_rest :
      (n : ℕ) (q : List (List Event × ℕ))
      → (q ≡ []) ⊎ (n ≡ 0)
      → (written ++ take n events) ++ waiting (q ++ (drop n events, w) ∷ [])
        ≡ (written ++ waiting q) ++ events
  append_rest n q (inl e) = rw e (simp (append_assoc, append-nil, take-append-drop))
  append_rest n q (inr e) = rw e (simp (waiting-append, append_assoc, append-nil))

  append_all :
      (n : ℕ) (q : List (List Event × ℕ))
      → (q ≡ []) ⊎ (n ≡ 0)
      → length events ≤ n
      → (written ++ take n events) ++ waiting q ≡ (written ++ waiting q) ++ events
  append_all n q (inl e) le = rw e (simp (append-nil, take_all n events le))
  append_all n q (inr e) le = rw e (simp (append-nil, length_zero events (omega (arith, le, e))))

queue_cases : (q : List (List Event × ℕ)) → (q ≡ []) ⊎ (is_empty q ≡ false)
queue_cases [] = inl refl
queue_cases (x ∷ xs) = inr refl

pub direct_write_cases :
    (available : ℕ) (ok : Bool) (events : List Event) (p : Pending)
    → (p.queue ≡ []) ⊎ (direct_write available ok events p ≡ 0)
unfolding direct_write
direct_write_cases available ok events p = elim (queue_cases p.queue) [
  | inl e ↦ inl e
  | inr e ↦ inr (ground arith)
]

-- Posting events that fit the limit of the pending queue loses and reorders nothing, whether the
-- message queue takes them or not: what was written, followed by what waits, is extended by the
-- events at its end.
pub post_order :
    (limit now available : ℕ) (ok : Bool) (events : List Event) (wakeups : ℕ) (locked : Bool)
    (p : Pending)
    → p.size + length events ≤ limit
    → let p' = post limit now available ok events wakeups locked p in
      p'.written ++ waiting p'.queue ≡ (p.written ++ waiting p.queue) ++ events
unfolding post
post_order limit now available ok events wakeups locked p fits =
    let n = direct_write available ok events p in
    let first = direct_write_cases available ok events p in
    let rest = append_rest p.written events wakeups n p.queue first in
    let all = append_all p.written events wakeups n p.queue first in ground arith

module _ (written front rest : List Event) (quantum : ℕ) where
  front_part :
      (written ++ take quantum front) ++ (drop quantum front ++ rest) ≡ written ++ (front ++ rest)
  front_part =
      append_assoc written (take quantum front) (drop quantum front ++ rest)
      ∙ ap (λ xs. written ++ xs)
          (sym (append_assoc (take quantum front) (drop quantum front) rest)
            ∙ ap (λ xs. xs ++ rest) (take-append-drop quantum front))

  front_whole :
      length front ≤ quantum → (written ++ take quantum front) ++ rest ≡ written ++ (front ++ rest)
  front_whole le = simp (take_all quantum front le, append_assoc)

write_front_order :
    (wakes : ℕ → Bool) (quantum : ℕ) (front : List Event) (wakeups : ℕ)
    (rest : List (List Event × ℕ)) (p : Pending)
    → let p' = write_front wakes quantum true front wakeups rest p in
      p'.written ++ waiting p'.queue ≡ p.written ++ (front ++ waiting rest)
unfolding write_front
write_front_order wakes quantum front wakeups rest p =
    let given = take-min quantum front in
    let part = front_part p.written front (waiting rest) quantum in
    let whole = front_whole p.written front (waiting rest) quantum in ground arith

pub write_round_order :
    (wakes : ℕ → Bool) (quantum : ℕ) (q : List (List Event × ℕ)) (p : Pending)
    → p.queue ≡ q
    → let p' = write_round wakes quantum true q p in
      p'.written ++ waiting p'.queue ≡ p.written ++ waiting p.queue
unfolding write_round
write_round_order wakes quantum [] p e = refl
write_round_order wakes quantum ((front, wakeups) ∷ rest) p e =
    write_front_order wakes quantum front wakeups rest p ∙ sym (ap (λ q. p.written ++ waiting q) e)

-- A round whose write succeeds moves events to the message queue, oldest first: what was written,
-- followed by what waits, is the same sequence after it.
pub write_pending_order :
    (wakes : ℕ → Bool) (quantum : ℕ) (p : Pending)
    → let p' = write_pending wakes quantum true p in
      p'.written ++ waiting p'.queue ≡ p.written ++ waiting p.queue
unfolding write_pending
write_pending_order wakes quantum p =
    let next = write_round_order wakes quantum p.queue p refl in ground arith
