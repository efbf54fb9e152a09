-- ===== src/Fingerprint/Codes.antt =====
-- aidl/fingerprint/Session.cpp, VendorErrorFilter and VendorAcquiredFilter, with the codes of
-- fingerprint/include/fingerprint.h. A code is an int32_t.
use android_hardware_xiaomi.Common.{
  ℕ, ◌+◌, ◌-◌, ◌≤◌, ◌≡◌, ◌↔◌, ◌⊎◌, arith, leb, ◌==◌, if◌then◌else◌,
}
use android_hardware_xiaomi.Common.Int.{ℤ, pos, negsuc}

-- Error of the AIDL interface.
pub data Error : Type 0 where
  hw_unavailable unable_to_process timeout no_space canceled unable_to_remove vendor_error : Error

-- AcquiredInfo of the AIDL interface.
pub data AcquiredInfo : Type 0 where
  good partial insufficient sensor_dirty too_slow too_fast vendor_acquired unknown : AcquiredInfo

abbrev pub error_lockout : ℕ
error_lockout = 7

abbrev pub error_vendor_base : ℕ
error_vendor_base = 1000

abbrev pub acquired_vendor_base : ℕ
acquired_vendor_base = 1000

-- The result and the vendor code.
unfoldable pub vendor_error_filter : ℤ → Error × ℕ
vendor_error_filter (negsuc n) = (unable_to_process, 0)
vendor_error_filter (pos n) =
    if n == 1
    then (hw_unavailable, 0)
    else if n == 2
    then (unable_to_process, 0)
    else if n == 3
    then (timeout, 0)
    else if n == 4
    then (no_space, 0)
    else if n == 5
    then (canceled, 0)
    else if n == 6
    then (unable_to_remove, 0)
    else if n == error_lockout
    then (vendor_error, error_lockout)
    else if leb error_vendor_base n
    then (vendor_error, n - error_vendor_base)
    else (unable_to_process, 0)

unfoldable pub vendor_acquired_filter : ℤ → AcquiredInfo × ℕ
vendor_acquired_filter (negsuc n) = (unknown, 0)
vendor_acquired_filter (pos n) =
    if n == 0
    then (good, 0)
    else if n == 1
    then (partial, 0)
    else if n == 2
    then (insufficient, 0)
    else if n == 3
    then (sensor_dirty, 0)
    else if n == 4
    then (too_slow, 0)
    else if n == 5
    then (too_fast, 0)
    else if leb acquired_vendor_base n
    then (vendor_acquired, n - acquired_vendor_base)
    else (unknown, 0)

-- The framework tells two known errors (1 to 7, and the vendor's from 1000 on) apart by the result
-- and the vendor code, but for one pair: the lockout error and the vendor's own error 1007 give the
-- same result.
pub vendor_error_filter_collision :
    (m n : ℕ)
    → 1 ≤ m
    → 1 ≤ n
    → (8 ≤ m → 1000 ≤ m)
    → (8 ≤ n → 1000 ≤ n)
    → (vendor_error_filter (pos m) ≡ vendor_error_filter (pos n))
      ↔ ((m ≡ n) ⊎ ((m ≡ 7) × (n ≡ 1007)) ⊎ ((m ≡ 1007) × (n ≡ 7)))
unfolding vendor_error_filter
vendor_error_filter_collision m n a b c d = (λ e. ground arith, λ e. ground arith)

-- The result is VENDOR exactly for the lockout code and for codes from the vendor's base on, and
-- then the base plus the vendor code is the code, but for the lockout.
pub vendor_error_filter_vendor :
    (n : ℕ)
    → (vendor_error_filter (pos n)).0 ≡ vendor_error
    → ((n ≡ 7) × ((vendor_error_filter (pos n)).1 ≡ 7))
      ⊎ ((1000 ≤ n) × (n ≡ 1000 + (vendor_error_filter (pos n)).1))
unfolding vendor_error_filter
vendor_error_filter_vendor n h = ground arith
