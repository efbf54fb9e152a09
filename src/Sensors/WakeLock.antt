-- ===== src/Sensors/WakeLock.antt =====
-- aidl/sensors/HalProxy.cpp, the shared wake lock. `held` is the system's wake lock; times are
-- nanoseconds of a clock that does not go back, and a missing start is the default argument -1.
-- The timeout is a constant of HalProxy.h, which is not in the repository: a parameter.
use android_hardware_xiaomi.Common.{
  ℕ, suc, ◌+◌, ◌-◌, ◌≤◌, ◌<◌, ◌≡◌, Bool, true, false, ◌||◌, not, List, [], ◌∷◌, Option, none, some,
  arith, ltb, ◌==◌, if◌then◌else◌, min,
}

pub record WakeLock : Type 0 where
  pub ref_count : ℕ
  pub held : Bool
  pub timeout_start : ℕ
  pub timeout_reset : ℕ
  pub threads_run : Bool

-- incrementRefCountAndMaybeAcquireWakelock; the state, whether it counted, and the start.
unfoldable pub increment : ℕ → ℕ → WakeLock → WakeLock × Option ℕ
increment now delta w = if not w.threads_run then (w, none) else (
  record w {
    held = if w.ref_count == 0 then true else w.held;
    timeout_start = now;
    ref_count = w.ref_count + delta;
  },
  some now,
)

-- decrementRefCountAndMaybeReleaseWakelock.
unfoldable pub decrement : ℕ → Option ℕ → WakeLock → WakeLock
decrement delta start w =
    if not w.threads_run
    then w
    else let start' : ℕ = elim start [ none ↦ w.timeout_reset | some t ↦ t ] in
      let left = w.ref_count - min w.ref_count delta in
      if w.ref_count == 0 || ltb start' w.timeout_reset
      then w
      else record w { ref_count = left; held = if left == 0 then false else w.held }

-- resetSharedWakelock.
unfoldable pub reset_shared_wakelock : ℕ → WakeLock → WakeLock
unfolding decrement
reset_shared_wakelock now w = record (decrement w.ref_count none w) { timeout_reset = now }

-- sharedWakelockDidTimeout: `none`, or the time left.
unfoldable pub time_left : ℕ → ℕ → WakeLock → Option ℕ
time_left timeout now w =
    if ltb timeout (now - w.timeout_start) then none else some (timeout - (now - w.timeout_start))

-- A round of handleWakelocks, from the wait on: what the framework reports as processed, if its
-- queue was written in time.
unfoldable pub wakelock_round : ℕ → ℕ → Option ℕ → WakeLock → WakeLock
unfolding decrement reset_shared_wakelock time_left
wakelock_round timeout now processed w =
    if not w.threads_run then w else elim (time_left timeout now w) [
      | none ↦ reset_shared_wakelock now w
      | some t ↦ elim processed [ none ↦ w | some n ↦ decrement n none w ]
    ]

pub data Op : Type 0 where
  acquires : ℕ → ℕ → Op
  releases : ℕ → Option ℕ → Op
  resets : ℕ → Op
  processes : ℕ → Option ℕ → Op

unfoldable pub apply : ℕ → Op → WakeLock → WakeLock
apply timeout (acquires now delta) w = (increment now (suc delta) w).0
apply timeout (releases delta start) w = decrement delta start w
apply timeout (resets now) w = reset_shared_wakelock now w
apply timeout (processes now processed) w = wakelock_round timeout now processed w

unfoldable pub apply_all : ℕ → List Op → WakeLock → WakeLock
apply_all timeout [] w = w
apply_all timeout (op ∷ ops) w = apply_all timeout ops (apply timeout op w)

-- The system's wake lock is held exactly while the count is positive.
abbrev pub Balanced : WakeLock → Type 0
Balanced w = w.held ≡ ltb 0 w.ref_count

apply-Balanced : (timeout : ℕ) (op : Op) (w : WakeLock) → Balanced w → Balanced (apply timeout op w)
unfolding apply increment wakelock_round
apply-Balanced timeout (acquires now delta) w b = ground arith
apply-Balanced timeout (releases delta start) w b = ground arith
apply-Balanced timeout (resets now) w b = ground arith
apply-Balanced timeout (processes now processed) w b = ground arith

-- Whatever the sub-HALs, the framework and the timeout do, in any order, it stays true that the
-- system's wake lock is held exactly while the count is positive, if no acquisition is for zero
-- events.
pub apply_all-Balanced :
    (timeout : ℕ) (ops : List Op) (w : WakeLock) → Balanced w → Balanced (apply_all timeout ops w)
unfolding apply_all
apply_all-Balanced timeout [] w b = b
apply_all-Balanced timeout (op ∷ ops) w b =
    apply_all-Balanced timeout ops (apply timeout op w) (apply-Balanced timeout op w b)

-- While the threads run and the wake lock is balanced, a release of a positive amount that carries
-- the time of its acquisition gives back what the acquisition took: the count and the system's
-- wake lock are as before, when no reset came later than the acquisition.
pub decrement_after_increment :
    (now delta : ℕ) (w : WakeLock)
    → w.threads_run ≡ true
    → 0 < delta
    → Balanced w
    → w.timeout_reset ≤ now
    → ((decrement delta (some now) (increment now delta w).0).ref_count ≡ w.ref_count)
      × ((decrement delta (some now) (increment now delta w).0).held ≡ w.held)
unfolding increment decrement
decrement_after_increment now delta w run pos b fresh = (ground arith, ground arith)

-- A release that carries a time before the last reset of the wake lock changes nothing.
pub decrement_before_reset :
    (delta start : ℕ) (w : WakeLock) → start < w.timeout_reset → decrement delta (some start) w ≡ w
unfolding decrement
decrement_before_reset delta start w old = ground arith

-- A wake lock that nobody acknowledges does not stay: while the threads run and the lock is held
-- exactly for a positive count, once the timeout has passed since the last
-- acquisition, a round of the wake lock thread leaves the count at zero and the lock released.
pub wakelock_round_timeout :
    (timeout now : ℕ) (processed : Option ℕ) (w : WakeLock)
    → w.threads_run ≡ true
    → Balanced w
    → timeout < now - w.timeout_start
    → ((wakelock_round timeout now processed w).ref_count ≡ 0)
      × ((wakelock_round timeout now processed w).held ≡ false)
unfolding wakelock_round
wakelock_round_timeout timeout now processed w run b late = (ground arith, ground arith)

-- Once the threads are told to stop, a reset does not release anything: the count and the system's
-- wake lock stay as they are, although handleWakelocks ends with such a reset.
pub reset_after_stop :
    (now : ℕ) (w : WakeLock)
    → w.threads_run ≡ false
    → ((reset_shared_wakelock now w).ref_count ≡ w.ref_count)
      × ((reset_shared_wakelock now w).held ≡ w.held)
unfolding reset_shared_wakelock
reset_after_stop now w stopped = (ground arith, ground arith)
