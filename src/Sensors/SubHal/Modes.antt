-- ===== src/Sensors/SubHal/Modes.antt =====
-- The sensors of a sub-HAL over every order of calls and polls: their handles and their mode.
use android_hardware_xiaomi.Common.{
  ℕ, ◌≤◌, ◌<◌, ◌≡◌, ◌∙◌, Bool, true, false, List, [], ◌∷◌, Option, none, some, arith, ◌==◌,
  if◌then◌else◌,
}
use android_hardware_xiaomi.Sensors.OneShot.{
  OneShot, OperationMode, PollResult, normal, activate, set_operation_mode, begin_poll, end_poll,
  poll_failed, polled,
}
use android_hardware_xiaomi.Sensors.SubHal.{
  SubHal, find, change, change_all, set_all_modes, initialize, activate_sensor, Result, ok,
  bad_value, new_sub_hal,
}
use android_hardware_xiaomi.Sensors.Handles.{
  set_sub_hal_index, route, IndexMask, route-set_sub_hal_index, sub_hal_index_is_clear_iff,
}

pub data Call : Type 0 where
  activates_sensor : ℕ → Bool → Call
  sets_all_modes : OperationMode → Call
  initializes : Call
  begins_poll : ℕ → Call
  ends_poll : ℕ → PollResult → Bool → Bool → Call

unfoldable pub call : Call → SubHal → SubHal
call (activates_sensor handle enabled) h = (activate_sensor handle enabled h).0
call (sets_all_modes mode) h = (set_all_modes mode h).0
call initializes h = (initialize h).0
call (begins_poll handle) h = record h { sensors = change handle begin_poll h.sensors }
call (ends_poll handle poll detected deliver) h = record h {
  sensors = change handle (end_poll poll detected deliver) h.sensors;
}

unfoldable pub calls : List Call → SubHal → SubHal
calls [] h = h
calls (c ∷ cs) h = calls cs (call c h)

abbrev pub AllInMode : OperationMode → List (ℕ × OneShot) → Type 0
AllInMode mode [] = Unit
AllInMode mode ((h, s) ∷ sensors) = (s.mode ≡ mode) × AllInMode mode sensors

module _ (mode : OperationMode) (f : OneShot → OneShot) where
  change-AllInMode :
      (handle : ℕ)
      → ((s : OneShot) → (f s).mode ≡ s.mode)
      → (sensors : List (ℕ × OneShot)) → AllInMode mode sensors
      → AllInMode mode (change handle f sensors)
  change-AllInMode handle keeps [] all = tt
  change-AllInMode handle keeps ((h, s) ∷ sensors) (this, rest) =
      elim (h == handle)
        as (λ b.
          AllInMode mode (if b then (h, f s) ∷ sensors else (h, s) ∷ change handle f sensors)) [
            | true ↦ (keeps s ∙ this, rest)
            | false ↦ (this, change-AllInMode handle keeps sensors rest)
          ]

  change_all-AllInMode :
      ((s : OneShot) → (f s).mode ≡ mode)
      → (sensors : List (ℕ × OneShot)) → AllInMode mode (change_all f sensors)
  change_all-AllInMode sets [] = tt
  change_all-AllInMode sets ((h, s) ∷ sensors) = (sets s, change_all-AllInMode sets sensors)

activate_mode : (enable : Bool) (s : OneShot) → (activate enable s).mode ≡ s.mode
unfolding activate
activate_mode enable s = ground arith

begin_poll_mode : (s : OneShot) → (begin_poll s).mode ≡ s.mode
unfolding begin_poll
begin_poll_mode s = ground arith

end_poll_mode :
    (poll : PollResult) (detected deliver : Bool) (s : OneShot)
    → (end_poll poll detected deliver s).mode ≡ s.mode
unfolding end_poll
end_poll_mode poll_failed detected deliver s = ground arith
end_poll_mode (polled gesture wake) detected deliver s = ground arith

set_operation_mode_mode :
    (mode : OperationMode) (s : OneShot) → (set_operation_mode mode s).mode ≡ mode
unfolding set_operation_mode
set_operation_mode_mode mode s = ground arith

abbrev pub InMode : SubHal → Type 0
InMode h = AllInMode h.current_mode h.sensors

call-InMode : (c : Call) (h : SubHal) → InMode h → InMode (call c h)
unfolding call activate_sensor set_all_modes initialize
call-InMode (activates_sensor handle enabled) h all =
    elim (find handle h.sensors)
      as (λ r.
        InMode
          (elim r as (λ x. SubHal × Result) [
            | none ↦ (h, bad_value)
            | some s ↦ (record h { sensors = change handle (activate enabled) h.sensors }, ok)
          ]).0) [
            | none ↦ all
            | some s ↦
                change-AllInMode h.current_mode (activate enabled) handle (activate_mode enabled)
                  h.sensors all
          ]
call-InMode (sets_all_modes mode) h all =
    change_all-AllInMode mode (set_operation_mode mode) (set_operation_mode_mode mode) h.sensors
call-InMode initializes h all =
    change_all-AllInMode normal (set_operation_mode normal) (set_operation_mode_mode normal)
      h.sensors
call-InMode (begins_poll handle) h all =
    change-AllInMode h.current_mode begin_poll handle begin_poll_mode h.sensors all
call-InMode (ends_poll handle poll detected deliver) h all =
    change-AllInMode h.current_mode (end_poll poll detected deliver) handle
      (end_poll_mode poll detected deliver) h.sensors all

-- Over every order of calls and polls, all sensors of a sub-HAL stay in the sub-HAL's mode, if they
-- are in it at first.
pub calls-InMode : (cs : List Call) (h : SubHal) → InMode h → InMode (calls cs h)
unfolding calls
calls-InMode [] h all = all
calls-InMode (c ∷ cs) h all = calls-InMode cs (call c h) (call-InMode c h all)

new_sub_hal_handles :
    (handle : ℕ) (first second third : Option Bool) (s : OneShot)
    → find handle (new_sub_hal first second third).sensors ≡ some s
    → handle < 4
unfolding new_sub_hal
new_sub_hal_handles handle none none none s e = ground arith
new_sub_hal_handles handle none none (some c) s e = ground arith
new_sub_hal_handles handle none (some b) none s e = ground arith
new_sub_hal_handles handle none (some b) (some c) s e = ground arith
new_sub_hal_handles handle (some a) none none s e = ground arith
new_sub_hal_handles handle (some a) none (some c) s e = ground arith
new_sub_hal_handles handle (some a) (some b) none s e = ground arith
new_sub_hal_handles handle (some a) (some b) (some c) s e = ground arith

-- A call with the proxy's handle of any sensor that a new sub-HAL has is routed to that sub-HAL and
-- that sensor, whichever of its three sensors are configured, in any place among up to 128
-- sub-HALs, with the first byte as the mask.
pub route-new_sub_hal :
    (mask count index handle : ℕ) (first second third : Option Bool) (s : OneShot)
    → IndexMask mask
    → index < count
    → count ≤ 128
    → find handle (new_sub_hal first second third).sensors ≡ some s
    → route mask count (set_sub_hal_index handle index) ≡ some (index, handle)
route-new_sub_hal mask count index handle first second third s m i few found =
    let small : handle < 4 = new_sub_hal_handles handle first second third s found in
    let clear = (sub_hal_index_is_clear_iff mask handle m (omega arith)).1 (omega arith) in
    route-set_sub_hal_index mask count handle index m clear (omega arith) i few
