-- ===== src/Fingerprint/Lockout/Modes.antt =====
-- Which mode a history of attempts leads to.
use android_hardware_xiaomi.Common.{
  ℕ, zero, suc, ◌+◌, ◌*◌, ◌≤◌, ◌<◌, ◌≡◌, ◌⊎◌, true, false, List, [], ◌∷◌, arith, leb, if◌then◌else◌,
}
use android_hardware_xiaomi.Common.Int.{pos, ◌≤ℤ◌}
use android_hardware_xiaomi.Fingerprint.Lockout.{
  LockoutMode, unlocked, timed, permanent, LockoutTracker, HasElapsed, new_tracker, reset,
  add_failed_attempt, get_mode, get_lockout_time_left, timed_duration,
}

-- What a session does to its tracker: an attempt that fails, one that succeeds (which resets
-- everything), a query of the mode, and the end of a timed lockout (which keeps the count).
pub data Attempt : Type 0 where
  failed succeeded queried timer_cleared : Attempt

module _ (has_elapsed : HasElapsed) where
  unfoldable pub attempt : ℕ → Attempt → LockoutTracker → LockoutTracker
  attempt now failed t = add_failed_attempt now t
  attempt now succeeded t = reset true t
  attempt now queried t = get_mode has_elapsed now t
  attempt now timer_cleared t = reset false t

  unfoldable pub history : List (ℕ × Attempt) → LockoutTracker → LockoutTracker
  history [] t = t
  history ((now, a) ∷ rest) t = history rest (attempt now a t)

-- The failures of a history since the last success, on top of some before it. The end of a timed
-- lockout does not clear them.
abbrev pub count_failures : ℕ → List (ℕ × Attempt) → ℕ
count_failures n [] = n
count_failures n ((now, failed) ∷ rest) = count_failures (suc n) rest
count_failures n ((now, succeeded) ∷ rest) = count_failures 0 rest
count_failures n ((now, queried) ∷ rest) = count_failures n rest
count_failures n ((now, timer_cleared) ∷ rest) = count_failures n rest

-- The mode that a number of failures leads to.
abbrev pub mode_after : ℕ → LockoutMode
mode_after n = if leb 20 n then permanent else if leb 5 n then timed else unlocked

-- The tracker counts just these failures, and a lockout needs its number of them.
pub record Inv (n : ℕ) (t : LockoutTracker) : Type 0 where
  pub counted : t.failed_count ≡ n
  pub timed_after : t.mode ≡ timed → 5 ≤ n
  pub timed_before : t.mode ≡ timed → n < 20
  pub permanent_after : t.mode ≡ permanent → 20 ≤ n

abbrev counts : Attempt → ℕ → ℕ
counts failed n = suc n
counts succeeded n = 0
counts queried n = n
counts timer_cleared n = n

attempt-Inv :
    (he : HasElapsed) (now : ℕ) (a : Attempt) (n : ℕ) (t : LockoutTracker)
    → Inv n t
    → Inv (counts a n) (attempt he now a t)
unfolding attempt add_failed_attempt reset get_mode
attempt-Inv he now failed n t v = ground arith
attempt-Inv he now succeeded n t v = ground arith
attempt-Inv he now queried n t v = ground arith
attempt-Inv he now timer_cleared n t v = ground arith

history-Inv :
    (he : HasElapsed) (events : List (ℕ × Attempt)) (n : ℕ) (t : LockoutTracker)
    → Inv n t
    → Inv (count_failures n events) (history he events t)
unfolding history
history-Inv he [] n t v = v
history-Inv he ((now, failed) ∷ rest) n t v =
    history-Inv he rest _ _ (attempt-Inv he now failed n t v)
history-Inv he ((now, succeeded) ∷ rest) n t v =
    history-Inv he rest _ _ (attempt-Inv he now succeeded n t v)
history-Inv he ((now, queried) ∷ rest) n t v =
    history-Inv he rest _ _ (attempt-Inv he now queried n t v)
history-Inv he ((now, timer_cleared) ∷ rest) n t v =
    history-Inv he rest _ _ (attempt-Inv he now timer_cleared n t v)

mode_cases : (m : LockoutMode) → (m ≡ unlocked) ⊎ (m ≡ timed) ⊎ (m ≡ permanent)
mode_cases unlocked = ground arith
mode_cases timed = ground arith
mode_cases permanent = ground arith

by_mode :
    (n : ℕ) (u : LockoutTracker)
    → Inv n u
    → (u.mode ≡ unlocked)
      ⊎ ((u.mode ≡ timed) × (5 ≤ n) × (n < 20))
      ⊎ ((u.mode ≡ permanent) × (20 ≤ n))
by_mode n u v = ground (arith, mode_cases u.mode)

next_failure :
    (now n : ℕ) (u : LockoutTracker)
    → Inv n u
    → let u' = add_failed_attempt now u in
      (u'.failed_count ≡ suc n) × (u'.mode ≡ mode_after (suc n))
unfolding add_failed_attempt
next_failure now n u v = ground (arith, mode_cases u.mode)

-- After any history that begins with a reset tracker, with `n` failures since the last success: the
-- mode is unlocked, or timed for five to nineteen failures, or permanent for at least twenty. And
-- the next failure brings the count to n + 1 and leaves exactly the mode of that number: none
-- below five, a timed lockout below twenty, a permanent one from twenty on.
pub history_modes :
    (he : HasElapsed) (events : List (ℕ × Attempt)) (now : ℕ) (t : LockoutTracker)
    → let n = count_failures 0 events in
      let u = history he events (reset true t) in
      let u' = add_failed_attempt now u in
      ((u.mode ≡ unlocked)
        ⊎ ((u.mode ≡ timed) × (5 ≤ n) × (n < 20))
        ⊎ ((u.mode ≡ permanent) × (20 ≤ n)))
      × (u'.failed_count ≡ suc n)
      × (u'.mode ≡ mode_after (suc n))
unfolding reset
history_modes he events now t =
    let v = history-Inv he events 0 (reset true t) (ground arith) in
    let (count, mode) = next_failure now _ _ v in (by_mode _ _ v, count, mode)

-- A run of n failures, at times that a function gives, with nothing in between.
unfoldable pub failures : (ℕ → ℕ) → ℕ → LockoutTracker → LockoutTracker
failures times zero t = t
failures times (suc n) t = add_failed_attempt (times n) (failures times n t)

failures_state :
    (times : ℕ → ℕ) (n : ℕ) (t : LockoutTracker)
    → let u = failures times n (reset true t) in
      (u.failed_count ≡ n)
      × (u.mode ≡ (if leb 20 n then permanent else if leb 5 n then timed else unlocked))
      × (5 ≤ n → n < 20 → u.timed_start ≡ times 4)
unfolding failures add_failed_attempt reset
failures_state times zero t = ground arith
failures_state times (suc n) t = ground (arith, failures_state times n t)

-- With no query in between, n failures after a reset lead to the mode that the two thresholds say,
-- with the count at n.
pub failures_mode :
    (times : ℕ → ℕ) (n : ℕ) (t : LockoutTracker)
    → let u = failures times n (reset true t) in
      (u.mode ≡ (if leb 20 n then permanent else if leb 5 n then timed else unlocked))
      × (u.failed_count ≡ n)
failures_mode times n t = ((failures_state times n t).1, (failures_state times n t).0)

-- With no query in between, a timed lockout runs from the fifth failure, however many follow it.
pub failures_start :
    (times : ℕ → ℕ) (n : ℕ) (t : LockoutTracker)
    → 5 ≤ n
    → n < 20
    → (failures times n (reset true t)).timed_start ≡ times 4
failures_start times n t many few = (failures_state times n t).2 many few

-- While less than ten seconds have passed since the nonzero start of a timed lockout, the time that
-- is reported as left is between one millisecond and ten seconds.
pub time_left_bounds :
    (now : ℕ) (t : LockoutTracker)
    → 0 < t.timed_start
    → t.timed_start ≤ now
    → now < t.timed_start + 10000 * 1000000
    → (get_lockout_time_left now t ≤ℤ pos 10000) × (pos 1 ≤ℤ get_lockout_time_left now t)
unfolding get_lockout_time_left
time_left_bounds now t started later early = ground arith

-- A permanent lockout is left only by a reset: neither time nor further failures end it.
pub permanent_stays :
    (he : HasElapsed) (now : ℕ) (t : LockoutTracker)
    → t.mode ≡ permanent
    → 20 ≤ t.failed_count
    → ((get_mode he now t).mode ≡ permanent) × ((add_failed_attempt now t).mode ≡ permanent)
unfolding get_mode add_failed_attempt
permanent_stays he now t p many = (ground arith, ground arith)

-- The constructor sets neither the mode nor the start of a lockout: for whatever the memory held,
-- a new tracker has that mode, and every mode is possible before the first attempt.
pub new_tracker_mode :
    (he : HasElapsed) (now start : ℕ) (mode : LockoutMode)
    → he now start timed_duration ≡ false
    → (get_mode he now (new_tracker start mode)).mode ≡ mode
unfolding get_mode new_tracker
new_tracker_mode he now start mode fresh = ground arith
