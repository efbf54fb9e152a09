-- ===== src/Sensors/Proxy.antt =====
-- aidl/sensors/HalProxy.cpp: the operation mode of all sub-HALs, and the sensors that come and go. A
-- sub-HAL is outside this file: what it answers to a mode is a parameter, a function of its index
-- and the mode, 0 for OK, and it is in the last mode that it took. A result other than OK is the
-- number that the sub-HAL gave.
use android_hardware_xiaomi.Common.{
  ℕ, zero, suc, ◌≡◌, refl, Bool, true, false, ◌&&◌, ◌||◌, not, List, [], ◌∷◌, arith, ◌==◌,
  if◌then◌else◌,
}
use android_hardware_xiaomi.Sensors.Handles.{set_sub_hal_index, sub_hal_index_is_clear}

pub record Proxy : Type 0 where
  pub current_mode : ℕ
  pub modes : List ℕ

pub record Flip : Type 0 where
  pub modes : List ℕ
  pub count : ℕ
  pub result : ℕ

module _ (answer : ℕ → ℕ → ℕ) where
  -- The first loop, from sub-HAL `i` on: it stops at the first that refuses.
  unfoldable pub flip_modes : ℕ → ℕ → List ℕ → Flip
  flip_modes mode i [] = record { modes = []; count = 0; result = 0 }
  flip_modes mode i (m ∷ ms) =
      let rest = flip_modes mode (suc i) ms in
      if answer i mode == 0
      then record { modes = mode ∷ rest.modes; count = suc rest.count; result = rest.result }
      else record { modes = m ∷ ms; count = 0; result = answer i mode }

  -- The second loop, which resets `count` sub-HALs from `i` on, whatever they answer.
  unfoldable pub reset_modes : ℕ → ℕ → ℕ → List ℕ → List ℕ
  reset_modes mode i zero ms = ms
  reset_modes mode i (suc count) [] = []
  reset_modes mode i (suc count) (m ∷ ms) =
      (if answer i mode == 0 then mode else m) ∷ reset_modes mode (suc i) count ms

  unfoldable pub set_operation_mode : ℕ → Proxy → Proxy × ℕ
  unfolding flip_modes reset_modes
  set_operation_mode mode p =
      let f = flip_modes mode 0 p.modes in
      if f.result == 0
      then (record { current_mode = mode; modes = f.modes }, 0)
      else (record p { modes = reset_modes p.current_mode 0 f.count f.modes }, f.result)

  abbrev pub all_accept : ℕ → ℕ → List ℕ → Bool
  all_accept mode i [] = true
  all_accept mode i (m ∷ ms) = (answer i mode == 0) && all_accept mode (suc i) ms

abbrev pub all_in : ℕ → List ℕ → Bool
all_in mode [] = true
all_in mode (m ∷ ms) = (m == mode) && all_in mode ms

module _ (answer : ℕ → ℕ → ℕ) where
  flip_modes-all_in :
      (mode i : ℕ) (ms : List ℕ)
      → (flip_modes answer mode i ms).result ≡ 0
      → all_in mode (flip_modes answer mode i ms).modes ≡ true
  unfolding flip_modes
  flip_modes-all_in mode i [] ok = refl
  flip_modes-all_in mode i (m ∷ ms) ok =
      let rest = flip_modes-all_in mode (suc i) ms in ground arith

  reset_modes-flip_modes :
      (current mode i : ℕ) (ms : List ℕ)
      → all_in current ms ≡ true
      → all_accept answer current i ms ≡ true
      → let f = flip_modes answer mode i ms in
        all_in current (reset_modes answer current i f.count f.modes) ≡ true
  unfolding flip_modes reset_modes
  reset_modes-flip_modes current mode i [] same accepted = refl
  reset_modes-flip_modes current mode i (m ∷ ms) same accepted =
      let rest = reset_modes-flip_modes current mode (suc i) ms in ground arith

-- When all sub-HALs are in the proxy's mode and would take it again, they are all in the proxy's
-- mode after a change of mode too, whether it succeeds or a sub-HAL refuses it half way.
pub set_operation_mode-all_in :
    (answer : ℕ → ℕ → ℕ) (mode : ℕ) (p : Proxy)
    → all_in p.current_mode p.modes ≡ true
    → all_accept answer p.current_mode 0 p.modes ≡ true
    → let p' = (set_operation_mode answer mode p).0 in all_in p'.current_mode p'.modes ≡ true
unfolding set_operation_mode
set_operation_mode-all_in answer mode p same accepted =
    let flipped = flip_modes-all_in answer mode 0 p.modes in
    let back = reset_modes-flip_modes answer p.current_mode mode 0 p.modes same accepted in
    ground arith

flip_modes_result :
    (answer : ℕ → ℕ → ℕ) (mode i : ℕ) (ms : List ℕ)
    → ((flip_modes answer mode i ms).result == 0) ≡ all_accept answer mode i ms
unfolding flip_modes
flip_modes_result answer mode i [] = refl
flip_modes_result answer mode i (m ∷ ms) =
    let rest = flip_modes_result answer mode (suc i) ms in ground arith

-- A change of mode returns OK just when every sub-HAL accepts the mode, and the proxy's mode is the
-- new one then and the old one otherwise.
pub set_operation_mode_result :
    (answer : ℕ → ℕ → ℕ) (mode : ℕ) (p : Proxy)
    → let r = set_operation_mode answer mode p in
      ((r.1 == 0) ≡ all_accept answer mode 0 p.modes)
      × (r.0.current_mode ≡ (if all_accept answer mode 0 p.modes then mode else p.current_mode))
unfolding set_operation_mode
set_operation_mode_result answer mode p =
    let all = flip_modes_result answer mode 0 p.modes in (ground arith, ground arith)

-- The dynamic sensors are a set of handles, a list without repetitions.
abbrev pub member : ℕ → List ℕ → Bool
member h [] = false
member h (x ∷ xs) = if x == h then true else member h xs

abbrev pub erase : ℕ → List ℕ → List ℕ
erase h [] = []
erase h (x ∷ xs) = if x == h then erase h xs else x ∷ erase h xs

-- onDynamicSensorsConnected: the sensors that are kept, and those that the callback is given.
unfoldable pub connect_sensors : ℕ → ℕ → List ℕ → List ℕ → List ℕ × List ℕ
connect_sensors mask index [] known = (known, [])
connect_sensors mask index (h ∷ added) known =
    let handle = set_sub_hal_index h index in
    let refused = connect_sensors mask index added known in
    let taken =
      connect_sensors mask index added (if member handle known then known else handle ∷ known) in
    if sub_hal_index_is_clear mask h then (taken.0, handle ∷ taken.1) else refused

-- onDynamicSensorsDisconnected.
unfoldable pub disconnect_sensors : ℕ → ℕ → List ℕ → List ℕ → List ℕ × List ℕ
disconnect_sensors mask index [] known = (known, [])
disconnect_sensors mask index (h ∷ removed) known =
    let handle = set_sub_hal_index h index in
    let skipped = disconnect_sensors mask index removed known in
    let erased = disconnect_sensors mask index removed (erase handle known) in
    if sub_hal_index_is_clear mask h && member handle known
    then (erased.0, handle ∷ erased.1)
    else skipped

-- After sensors connected, the sensors that are known are those known before and those that the
-- callback was given, and no others.
pub connect_sensors_known :
    (mask index : ℕ) (added known : List ℕ) (h : ℕ)
    → let r = connect_sensors mask index added known in
      member h r.0 ≡ (member h known || member h r.1)
unfolding connect_sensors
connect_sensors_known mask index [] known h = ground arith
connect_sensors_known mask index (a ∷ added) known h =
    let handle = set_sub_hal_index a index in
    let refused = connect_sensors_known mask index added known h in
    let new = connect_sensors_known mask index added (handle ∷ known) h in ground arith

member-erase : (x h : ℕ) (xs : List ℕ) → member h (erase x xs) ≡ (member h xs && not (x == h))
member-erase x h [] = refl
member-erase x h (y ∷ xs) = let rest = member-erase x h xs in ground arith

-- After sensors disconnected, the sensors that are known are those known before less those that the
-- callback was told of.
pub disconnect_sensors_known :
    (mask index : ℕ) (removed known : List ℕ) (h : ℕ)
    → let r = disconnect_sensors mask index removed known in
      member h r.0 ≡ (member h known && not (member h r.1))
unfolding disconnect_sensors
disconnect_sensors_known mask index [] known h = ground arith
disconnect_sensors_known mask index (a ∷ removed) known h =
    let handle = set_sub_hal_index a index in
    let skipped = disconnect_sensors_known mask index removed known h in
    let erased = disconnect_sensors_known mask index removed (erase handle known) h in
    let left = member-erase handle h known in ground arith
