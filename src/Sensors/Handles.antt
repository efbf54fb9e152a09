-- ===== src/Sensors/Handles.antt =====
-- aidl/sensors/HalProxy.cpp, the sub-HAL's index in the first byte of a sensor handle. An int32_t is
-- the bit pattern that it has, a number below 2 ^ 32. The mask is a constant of HalProxy.h, which is
-- not in the repository: the parameter `mask`.
use android_hardware_xiaomi.Common.{
  ℕ, ◌+◌, ◌-◌, ◌*◌, ◌/◌, ◌%◌, ◌^◌, ◌≤◌, ◌<◌, ◌≡◌, ◌∙◌, ◌↔◌, ap, Bool, true, Option, none, some,
  arith, ltb, ◌==◌, if◌then◌else◌, bit_and, bit_or,
}
use android_hardware_xiaomi.Common.Bits.{bit_or_shifted, bit_and_mask, bit_and_above}

unfoldable pub set_sub_hal_index : ℕ → ℕ → ℕ
set_sub_hal_index handle index = bit_or handle (index * 2 ^ 24 % 2 ^ 32)

-- The shift of an int32_t keeps the sign, and the cast to size_t extends it to 64 bits.
unfoldable pub extract_sub_hal_index : ℕ → ℕ
extract_sub_hal_index handle =
    if ltb handle (2 ^ 31) then handle / 2 ^ 24 else handle / 2 ^ 24 + (2 ^ 64 - 2 ^ 8)

unfoldable pub clear_sub_hal_index : ℕ → ℕ → ℕ
clear_sub_hal_index mask handle = bit_and handle (2 ^ 32 - 1 - mask)

unfoldable pub sub_hal_index_is_clear : ℕ → ℕ → Bool
sub_hal_index_is_clear mask handle = bit_and handle mask == 0

-- isSubHalIndexValid, getSubHalForSensorHandle and clearSubHalIndex, as activate, batch, flush and
-- injectSensorData use them: the sub-HAL and its own handle, or BAD_VALUE.
unfoldable pub route : ℕ → ℕ → ℕ → Option (ℕ × ℕ)
route mask count handle =
    if ltb (extract_sub_hal_index handle) count
    then some (extract_sub_hal_index handle, clear_sub_hal_index mask handle)
    else none

-- The first byte.
abbrev pub IndexMask : ℕ → Type 0
IndexMask mask = mask ≡ 0xff * 2 ^ 24

set-sum :
    (handle index : ℕ)
    → handle < 2 ^ 24
    → index < 256
    → set_sub_hal_index handle index ≡ handle + index * 2 ^ 24
unfolding set_sub_hal_index
set-sum handle index h i = ap (bit_or handle) (omega arith) ∙ bit_or_shifted 24 handle index h

clear-low : (mask handle : ℕ) → IndexMask mask → clear_sub_hal_index mask handle ≡ handle % 2 ^ 24
unfolding clear_sub_hal_index
clear-low mask handle m = ap (bit_and handle) (omega arith) ∙ bit_and_mask 24 handle

masked : (handle : ℕ) → handle < 2 ^ 32 → bit_and handle (0xff * 2 ^ 24) ≡ handle / 2 ^ 24 * 2 ^ 24
masked handle h =
    ap (λ (x : ℕ). bit_and x (0xff * 2 ^ 24)) split
    ∙ bit_and_above 24 (handle / 2 ^ 24) (handle % 2 ^ 24) 0xff (omega arith)
    ∙ ap (λ (x : ℕ). x * 2 ^ 24) (bit_and_mask 8 (handle / 2 ^ 24) ∙ omega arith)
  where
    split : handle ≡ handle % 2 ^ 24 + handle / 2 ^ 24 * 2 ^ 24
    split = omega arith

-- The index is clear exactly for handles below 2 ^ 24.
pub sub_hal_index_is_clear_iff :
    (mask handle : ℕ)
    → IndexMask mask
    → handle < 2 ^ 32
    → (sub_hal_index_is_clear mask handle ≡ true) ↔ (handle < 2 ^ 24)
unfolding sub_hal_index_is_clear
sub_hal_index_is_clear_iff mask handle m h =
    (λ e. ground (arith, masked handle h), λ low. ground (arith, masked handle h))

extract-sum :
    (handle index : ℕ)
    → handle < 2 ^ 24
    → index < 128
    → extract_sub_hal_index (handle + index * 2 ^ 24) ≡ index
unfolding extract_sub_hal_index
extract-sum handle index h i = ground arith

-- The index that a handle was given.
pub extract-set_sub_hal_index :
    (mask handle index : ℕ)
    → IndexMask mask
    → sub_hal_index_is_clear mask handle ≡ true
    → handle < 2 ^ 32
    → index < 128
    → extract_sub_hal_index (set_sub_hal_index handle index) ≡ index
extract-set_sub_hal_index mask handle index m clear h i =
    let low = (sub_hal_index_is_clear_iff mask handle m h).0 clear in
    rw (set-sum handle index low (omega arith)) (extract-sum handle index low i)

-- A handle that the proxy hands out leads back: with up to 128 sub-HALs
-- and the first byte as the mask, a call with the handle that
-- was made of a sub-HAL's own handle and its index is routed to that sub-HAL and that handle.
pub route-set_sub_hal_index :
    (mask count handle index : ℕ)
    → IndexMask mask
    → sub_hal_index_is_clear mask handle ≡ true
    → handle < 2 ^ 32
    → index < count
    → count ≤ 128
    → route mask count (set_sub_hal_index handle index) ≡ some (index, handle)
unfolding route
route-set_sub_hal_index mask count handle index m clear h i few =
    let low = (sub_hal_index_is_clear_iff mask handle m h).0 clear in
    rw (set-sum handle index low (omega arith)) (
      ground (
        arith,
        extract-sum handle index low (omega arith),
        clear-low mask (handle + index * 2 ^ 24) m,
      ))
