-- ===== src/Sensors/Directory/Direct.antt =====
-- Which sensors keep the direct channel.
use android_hardware_xiaomi.Common.{
  ℕ, suc, ◌+◌, ◌^◌, ◌<◌, ◌≤◌, ◌≡◌, refl, sym, ◌⊎◌, inl, inr, ◌&&◌, not, List, [], ◌∷◌, Option, none,
  some, ◌==◌, bit_and, bytes_eq, arith, length, Bool-cases, if_intro,
}
use android_hardware_xiaomi.Common.Bits.{bit_and_cleared}
use android_hardware_xiaomi.Sensors.Handles.{
  set_sub_hal_index, sub_hal_index_is_clear, extract_sub_hal_index, IndexMask,
  extract-set_sub_hal_index,
}
use android_hardware_xiaomi.Sensors.Directory.{
  Platform, SensorInfo, Directory, set_direct_channel_flags, patch_xiaomi_pickup_sensor, put, keep,
  xiaomi_pickup, xiaomi_pick_up, add_sensor, add_list, initialize_sensor_list,
}

-- No direct channel, or that of the sub-HAL that the handle names.
abbrev pub Rightful : Platform → Option ℕ → ℕ → SensorInfo → Type 0
Rightful p direct handle s =
    (bit_and s.flags p.direct_mask ≡ 0) ⊎ (direct ≡ some (extract_sub_hal_index handle))

abbrev pub AllRightful : Platform → Option ℕ → List (ℕ × SensorInfo) → Type 0
AllRightful p direct [] = Unit
AllRightful p direct ((h, s) ∷ sensors) = Rightful p direct h s × AllRightful p direct sensors

put-AllRightful :
    (p : Platform) (direct : Option ℕ) (handle : ℕ) (s : SensorInfo)
    (sensors : List (ℕ × SensorInfo))
    → Rightful p direct handle s
    → AllRightful p direct sensors
    → AllRightful p direct (put handle s sensors)
put-AllRightful p direct handle s [] r all = (r, tt)
put-AllRightful p direct handle s ((h, t) ∷ sensors) r all =
    let later = put-AllRightful p direct handle s sensors r all.1 in
    elim (Bool-cases (h == handle)) [
      | inl same ↦ let e : handle ≡ h = ground arith in rw same (subst_handle e, all.1)
      | inr other ↦ rw other (all.0, later)
    ]
  where
    subst_handle : {h : ℕ} → handle ≡ h → Rightful p direct h s
    subst_handle e = rw (sym e) r

-- A direct channel that is first given away finds no sensor that has one.
given_away :
    (p : Platform) (i : ℕ) (sensors : List (ℕ × SensorInfo))
    → AllRightful p none sensors
    → AllRightful p (some i) sensors
given_away p i [] all = tt
given_away p i ((h, s) ∷ sensors) (inl clear, all) = (inl clear, given_away p i sensors all)
given_away p i ((h, s) ∷ sensors) (inr e, all) = absurd (cc)

-- What the flags of a sensor of sub-HAL `i` come to.
flags-Rightful :
    (p : Platform) (i : ℕ) (s : SensorInfo) (direct : Option ℕ)
    → p.direct_mask < 2 ^ 32
    → extract_sub_hal_index s.sensor_handle ≡ i
    → let r = set_direct_channel_flags p i s direct in Rightful p r.1 r.0.sensor_handle r.0
unfolding set_direct_channel_flags
flags-Rightful p i s none small mine = elim (Bool-cases (bit_and s.flags p.direct_mask == 0)) [
  | inl clear ↦
      let zero_flags : bit_and s.flags p.direct_mask ≡ 0 = ground arith in rw clear (inl zero_flags)
  | inr direct ↦ rw (direct, mine) (inr refl)
]
flags-Rightful p i s (some j) small mine = elim (Bool-cases (i == j)) [
  | inl same ↦ let e : i ≡ j = ground arith in rw (same, mine, e) (inr refl)
  | inr other ↦ rw other (inl (bit_and_cleared 32 s.flags p.direct_mask small))
]

-- The flags step keeps what the other sensors have.
others-Rightful :
    (p : Platform) (i : ℕ) (s : SensorInfo) (direct : Option ℕ) (sensors : List (ℕ × SensorInfo))
    → AllRightful p direct sensors
    → AllRightful p (set_direct_channel_flags p i s direct).1 sensors
unfolding set_direct_channel_flags
others-Rightful p i s none sensors all = elim (Bool-cases (bit_and s.flags p.direct_mask == 0)) [
  | inl clear ↦ rw clear all
  | inr direct ↦ rw direct (given_away p i sensors all)
]
others-Rightful p i s (some j) sensors all = elim (Bool-cases (i == j)) [
  | inl same ↦ rw same all
  | inr other ↦ rw other all
]

keep-AllRightful :
    (p : Platform) (direct : Option ℕ) (s : SensorInfo) (sensors : List (ℕ × SensorInfo))
    → Rightful p direct s.sensor_handle s
    → AllRightful p direct sensors
    → AllRightful p direct (keep (patch_xiaomi_pickup_sensor p s) sensors)
unfolding patch_xiaomi_pickup_sensor
keep-AllRightful p direct s sensors r all =
    let kept = put-AllRightful p direct s.sensor_handle s sensors r all in
    let is_other =
      not (bytes_eq s.type_as_string xiaomi_pickup)
      && not (bytes_eq s.type_as_string xiaomi_pick_up) in
    let patched = record s {
      sensor_type = p.pick_up_gesture;
      type_as_string = p.pick_up_string;
      max_range = p.one;
    } in
    if_intro (λ (o : Option SensorInfo). AllRightful p direct (keep o sensors)) is_other _ _ kept
      (if_intro (λ (o : Option SensorInfo). AllRightful p direct (keep o sensors))
        (bit_and s.flags p.wake_up == 0) _ _ all
        (put-AllRightful p direct s.sensor_handle patched sensors r all))

abbrev pub Handles : List SensorInfo → Type 0
Handles [] = Unit
Handles (s ∷ list) = (s.sensor_handle < 2 ^ 32) × Handles list

add_sensor-AllRightful :
    (p : Platform) (i : ℕ) (s : SensorInfo) (d : Directory)
    → IndexMask p.index_mask
    → p.direct_mask < 2 ^ 32
    → i < 128
    → s.sensor_handle < 2 ^ 32
    → AllRightful p d.direct_sub_hal d.sensors
    → let e = add_sensor p i s d in AllRightful p e.direct_sub_hal e.sensors
unfolding add_sensor
add_sensor-AllRightful p i s d mask small few low all =
    elim (Bool-cases (sub_hal_index_is_clear p.index_mask s.sensor_handle)) [
      | inl clear ↦
          let indexed = record s { sensor_handle = set_sub_hal_index s.sensor_handle i } in
          let mine = extract-set_sub_hal_index p.index_mask s.sensor_handle i mask clear low few in
          let r = set_direct_channel_flags p i indexed d.direct_sub_hal in
          let flags = flags-Rightful p i indexed d.direct_sub_hal small mine in
          let others = others-Rightful p i indexed d.direct_sub_hal d.sensors all in
          rw clear (keep-AllRightful p r.1 r.0 d.sensors flags others)
      | inr foreign ↦ rw foreign all
    ]

add_list-AllRightful :
    (p : Platform) (i : ℕ) (list : List SensorInfo) (d : Directory)
    → IndexMask p.index_mask
    → p.direct_mask < 2 ^ 32
    → i < 128
    → Handles list
    → AllRightful p d.direct_sub_hal d.sensors
    → let e = add_list p i list d in AllRightful p e.direct_sub_hal e.sensors
unfolding add_list
add_list-AllRightful p i [] d mask small few low all = all
add_list-AllRightful p i (s ∷ list) d mask small few low all =
    add_list-AllRightful p i list (add_sensor p i s d) mask small few low.1
      (add_sensor-AllRightful p i s d mask small few low.0 all)

abbrev pub AllHandles : List (Option (List SensorInfo)) → Type 0
AllHandles [] = Unit
AllHandles (none ∷ lists) = AllHandles lists
AllHandles (some list ∷ lists) = Handles list × AllHandles lists

-- After the sensors of up to 128 sub-HALs are gathered, from a directory in which it holds, a sensor
-- has a direct channel flag only if its handle names the sub-HAL that has the direct channel. The
-- first byte of a handle is the index, and the flags and the sub-HALs' handles have 32 bits.
pub initialize_sensor_list-AllRightful :
    (p : Platform) (i : ℕ) (lists : List (Option (List SensorInfo))) (d : Directory)
    → IndexMask p.index_mask
    → p.direct_mask < 2 ^ 32
    → i + length lists ≤ 128
    → AllHandles lists
    → AllRightful p d.direct_sub_hal d.sensors
    → let e = initialize_sensor_list p i lists d in AllRightful p e.direct_sub_hal e.sensors
unfolding initialize_sensor_list
initialize_sensor_list-AllRightful p i [] d mask small few low all = all
initialize_sensor_list-AllRightful p i (none ∷ lists) d mask small few low all =
    initialize_sensor_list-AllRightful p (suc i) lists d mask small (omega arith) low all
initialize_sensor_list-AllRightful p i (some list ∷ lists) d mask small few low all =
    initialize_sensor_list-AllRightful p (suc i) lists (add_list p i list d) mask small
      (omega arith) low.1 (add_list-AllRightful p i list d mask small (omega arith) low.0 all)
