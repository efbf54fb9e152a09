-- ===== src/Sensors/Flow.antt =====
-- aidl/sensors: the way of the events from the sub-HALs (HalProxyCallback.cpp) through the
-- pending queue (HalProxy.cpp) to the message queue. The sub-HALs post and the thread of pending
-- writes runs in any order; what the message queue takes is an argument of each step.
pub mod Order
pub mod Complete
pub mod Release
pub mod Invariant
use android_hardware_xiaomi.Common.{ℕ, Bool, List, [], ◌∷◌, ◌++◌, Option, some}
use android_hardware_xiaomi.Sensors.Events.{SensorInfo, process_events, post_events}
use android_hardware_xiaomi.Sensors.WakeLock.{increment, decrement, wakelock_round}
use android_hardware_xiaomi.Sensors.Pending.{Event, Pending, write_pending}

-- What does not change: the sensors, the limit of the pending queue and the size of the message
-- queue.
pub record Pipeline : Type 0 where
  pub sensor : ℕ → SensorInfo
  pub limit : ℕ
  pub quantum : ℕ

-- A batch that a sub-HAL posts: its index, the gate, the lid, the wake lock of the batch.
pub record Batch : Type 0 where
  pub index : ℕ
  pub gated : Bool
  pub lid_open : Bool
  pub events : List Event
  pub locked : Bool
  pub created : ℕ

-- A batch that is posted, with the time, the room in the message queue and whether a write to it
-- succeeds; a round of the thread of pending writes; a wake lock that is made for a batch; the
-- release of one, with the time when it was made, by the platform's class of it; a round of the
-- wake lock thread, with its timeout, the time and what the framework reports as processed.
pub data Step : Type 0 where
  posts : Batch → ℕ → ℕ → Bool → Step
  writes : Bool → Step
  locks : ℕ → Step
  releases : ℕ → Step
  acknowledges : ℕ → ℕ → Option ℕ → Step

unfoldable pub take_step : Pipeline → Step → Pending → Pending
take_step s (posts b now available write_ok) p =
    post_events s.sensor b.gated b.lid_open b.index s.limit now available write_ok b.events b.locked
      b.created p
take_step s (writes write_ok) p = write_pending (λ h. (s.sensor h).wakes) s.quantum write_ok p
take_step s (locks now) p = record p { wake = (increment now 1 p.wake).0 }
take_step s (releases created) p = record p { wake = decrement 1 (some created) p.wake }
take_step s (acknowledges timeout now processed) p = record p {
  wake = wakelock_round timeout now processed p.wake;
}

unfoldable pub run : Pipeline → List Step → Pending → Pending
unfolding take_step
run s [] p = p
run s (e ∷ es) p = run s es (take_step s e p)

-- The events that the sub-HALs post and that may pass, oldest first.
abbrev pub step_events : Pipeline → Step → List Event
step_events s (posts b now available write_ok) =
    (process_events s.sensor b.gated b.lid_open b.index b.events).0
step_events s (writes write_ok) = []
step_events s (locks now) = []
step_events s (releases created) = []
step_events s (acknowledges timeout now processed) = []

abbrev pub passed : Pipeline → List Step → List Event
passed s [] = []
passed s (e ∷ es) = step_events s e ++ passed s es
