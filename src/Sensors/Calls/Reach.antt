-- ===== src/Sensors/Calls/Reach.antt =====
-- Where the calls with the handles of the listed sensors go.
use android_hardware_xiaomi.Common.{
  ℕ, zero, suc, ◌+◌, ◌^◌, ◌<◌, ◌≤◌, ◌≡◌, sym, ◌∙◌, ap, subst, Bool, true, false, ◌&&◌, ◌||◌, not,
  List, [], ◌∷◌, Option, none, some, ◌==◌, bit_and, bytes_eq, arith, length, Bool-cases, inl, inr,
  if_intro,
}
use android_hardware_xiaomi.Sensors.Handles.{
  set_sub_hal_index, sub_hal_index_is_clear, IndexMask, route, route-set_sub_hal_index,
}
use android_hardware_xiaomi.Sensors.Directory.{
  Platform, SensorInfo, Directory, Forward, forwarded, to_forward, set_direct_channel_flags,
  patch_xiaomi_pickup_sensor, put, keep, xiaomi_pickup, xiaomi_pick_up, add_sensor, add_list,
  initialize_sensor_list,
}
use android_hardware_xiaomi.Sensors.Directory.Direct.{Handles, AllHandles}
use android_hardware_xiaomi.Sensors.Calls.{
  Call, activates, batches, flushes, activate, batch, flush,
}

-- Whether a list has a sensor of that handle, and whether that of sub-HAL `i` does.
abbrev pub has_handle : ℕ → List SensorInfo → Bool
has_handle own [] = false
has_handle own (s ∷ list) = own == s.sensor_handle || has_handle own list

abbrev pub offers : List (Option (List SensorInfo)) → ℕ → ℕ → Bool
offers [] i own = false
offers (none ∷ lists) zero own = false
offers (none ∷ lists) (suc i) own = offers lists i own
offers (some list ∷ lists) zero own = has_handle own list
offers (some list ∷ lists) (suc i) own = offers lists i own

abbrev pub AllOf : (ℕ → Type 0) → List (ℕ × SensorInfo) → Type 0
AllOf Q [] = Unit
AllOf Q ((h, s) ∷ sensors) = Q h × AllOf Q sensors

next : (k i : ℕ) → k + suc i ≡ suc k + i
next k i = omega arith

first : (k : ℕ) → k + 0 ≡ k
first k = omega arith

next_zero : (i : ℕ) → 0 + i ≡ i
next_zero i = omega arith

module _ (p : Platform) (Q : ℕ → Type 0) where
  put-AllOf :
      (handle : ℕ) (s : SensorInfo) (sensors : List (ℕ × SensorInfo))
      → Q handle
      → AllOf Q sensors
      → AllOf Q (put handle s sensors)
  put-AllOf handle s [] q all = (q, tt)
  put-AllOf handle s ((h, t) ∷ sensors) q all =
      if_intro (AllOf Q) (h == handle) ((h, s) ∷ sensors) ((h, t) ∷ put handle s sensors) all
        (all.0, put-AllOf handle s sensors q all.1)

  keep-AllOf :
      (s : SensorInfo) (sensors : List (ℕ × SensorInfo))
      → Q s.sensor_handle
      → AllOf Q sensors
      → AllOf Q (keep (patch_xiaomi_pickup_sensor p s) sensors)
  unfolding patch_xiaomi_pickup_sensor
  keep-AllOf s sensors q all =
      let P : Option SensorInfo → Type 0 = λ o. AllOf Q (keep o sensors) in
      if_intro P
        (not (bytes_eq s.type_as_string xiaomi_pickup)
          && not (bytes_eq s.type_as_string xiaomi_pick_up))
        (some s) _ (put-AllOf s.sensor_handle s sensors q all)
        (if_intro P (bit_and s.flags p.wake_up == 0) none _ all
          (put-AllOf s.sensor_handle _ sensors q all))

  flags_handle :
      (i : ℕ) (s : SensorInfo) (direct : Option ℕ)
      → (set_direct_channel_flags p i s direct).0.sensor_handle ≡ s.sensor_handle
  unfolding set_direct_channel_flags
  flags_handle i s none = ground arith
  flags_handle i s (some j) = ground arith

  add_sensor-AllOf :
      (i : ℕ) (s : SensorInfo) (d : Directory)
      → (sub_hal_index_is_clear p.index_mask s.sensor_handle ≡ true
          → Q (set_sub_hal_index s.sensor_handle i))
      → AllOf Q d.sensors
      → AllOf Q (add_sensor p i s d).sensors
  unfolding add_sensor
  add_sensor-AllOf i s d gives all =
      elim (Bool-cases (sub_hal_index_is_clear p.index_mask s.sensor_handle)) [
        | inl clear ↦
            let indexed = record s { sensor_handle = set_sub_hal_index s.sensor_handle i } in
            rw clear (
              keep-AllOf (set_direct_channel_flags p i indexed d.direct_sub_hal).0 d.sensors
                (subst Q (sym (flags_handle i indexed d.direct_sub_hal)) (gives clear)) all)
        | inr foreign ↦ rw foreign all
      ]

  add_list-AllOf :
      (i : ℕ) (list : List SensorInfo) (d : Directory)
      → ((own : ℕ)
          → has_handle own list ≡ true
          → sub_hal_index_is_clear p.index_mask own ≡ true
          → Q (set_sub_hal_index own i))
      → AllOf Q d.sensors
      → AllOf Q (add_list p i list d).sensors
  unfolding add_list
  add_list-AllOf i [] d gives all = all
  add_list-AllOf i (s ∷ list) d gives all =
      add_list-AllOf i list (add_sensor p i s d) (λ own has. gives own (ground arith))
        (add_sensor-AllOf i s d (gives s.sensor_handle (ground arith)) all)

  initialize_sensor_list-AllOf :
      (k : ℕ) (lists : List (Option (List SensorInfo))) (d : Directory)
      → ((i own : ℕ)
          → offers lists i own ≡ true
          → sub_hal_index_is_clear p.index_mask own ≡ true
          → Q (set_sub_hal_index own (k + i)))
      → AllOf Q d.sensors
      → AllOf Q (initialize_sensor_list p k lists d).sensors
  unfolding initialize_sensor_list
  initialize_sensor_list-AllOf k [] d gives all = all
  initialize_sensor_list-AllOf k (none ∷ lists) d gives all =
      initialize_sensor_list-AllOf (suc k) lists d
        (λ i own o clear.
          subst Q (ap (set_sub_hal_index own) (next k i)) (gives (suc i) own o clear))
        all
  initialize_sensor_list-AllOf k (some list ∷ lists) d gives all =
      initialize_sensor_list-AllOf (suc k) lists (add_list p k list d)
        (λ i own o clear.
          subst Q (ap (set_sub_hal_index own) (next k i)) (gives (suc i) own o clear))
        (add_list-AllOf k list d
          (λ own o clear. subst Q (ap (set_sub_hal_index own) (first k)) (gives zero own o clear))
          all)

has_handle-small :
    (own : ℕ) (list : List SensorInfo) → Handles list → has_handle own list ≡ true → own < 2 ^ 32
has_handle-small own [] small has = cc
has_handle-small own (s ∷ list) small has = ground (arith, has_handle-small own list small.1)

offers-small :
    (lists : List (Option (List SensorInfo))) (i own : ℕ)
    → AllHandles lists
    → offers lists i own ≡ true
    → (own < 2 ^ 32) × (i < length lists)
offers-small [] i own small o = cc
offers-small (none ∷ lists) zero own small o = cc
offers-small (none ∷ lists) (suc i) own small o =
    let rest = offers-small lists i own small o in (rest.0, omega arith)
offers-small (some list ∷ lists) zero own small o =
    (has_handle-small own list small.0 o, omega arith)
offers-small (some list ∷ lists) (suc i) own small o =
    let rest = offers-small lists i own small.1 o in (rest.0, omega arith)

-- The calls with a handle go to a sub-HAL that has a sensor with the handle that is passed on.
abbrev pub Reaches : Platform → List (Option (List SensorInfo)) → ℕ → Type 0
Reaches p lists handle =
    (i : ℕ) × (own : ℕ) × (offers lists i own ≡ true)
    × ((enabled : Bool)
        → activate p (length lists) handle enabled ≡ (forwarded i own, activates enabled))
    × ((period latency : ℕ)
        → batch p (length lists) handle period latency ≡ (forwarded i own, batches period latency))
    × (flush p (length lists) handle ≡ (forwarded i own, flushes))

abbrev pub no_sensors : Directory
no_sensors = record { sensors = []; direct_sub_hal = none }

-- Every sensor that the proxy lists can be used: after the sensors of up to 128 sub-HALs are
-- gathered, an activation, a batch call or a flush with the handle of any entry of the list is
-- passed on to a sub-HAL that itself listed a sensor, with that sensor's own handle and with
-- what else the call says. The first
-- byte of a handle is the index, and the sub-HALs' handles have 32 bits.
pub listed_sensor_reached :
    (p : Platform) (lists : List (Option (List SensorInfo)))
    → IndexMask p.index_mask
    → length lists ≤ 128
    → AllHandles lists
    → AllOf (Reaches p lists) (initialize_sensor_list p 0 lists no_sensors).sensors
unfolding activate batch flush
listed_sensor_reached p lists mask few small =
    initialize_sensor_list-AllOf p (Reaches p lists) 0 lists no_sensors
      (λ i own o clear.
        let (low, at) = offers-small lists i own small o in
        let way = ap (set_sub_hal_index own) (next_zero i) in
        let e : route p.index_mask (length lists) (set_sub_hal_index own (0 + i)) ≡ some (i, own) =
          ap (λ (h : ℕ). route p.index_mask (length lists) h) way
          ∙ route-set_sub_hal_index p.index_mask (length lists) own i mask clear low at few in
        let passed = λ (call : Call). ap {B = Forward × Call} (λ o. (to_forward o, call)) e in
        (
          i,
          own,
          o,
          λ enabled. passed (activates enabled),
          λ period latency. passed (batches period latency),
          passed flushes,
        ))
      tt
