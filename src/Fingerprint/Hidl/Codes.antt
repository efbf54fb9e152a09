-- ===== src/Fingerprint/Hidl/Codes.antt =====
-- hidl/biometrics/fingerprint/BiometricsFingerprint.cpp, ErrorFilter, VendorErrorFilter and
-- VendorAcquiredFilter, and how they stand to those of aidl/fingerprint/Session.cpp.
use android_hardware_xiaomi.Common.{
  ℕ, ◌-◌, ◌≤◌, ◌≡◌, refl, ◌↔◌, Bool, true, false, arith, leb, ◌==◌, if◌then◌else◌,
}
use android_hardware_xiaomi.Common.Int.{ℤ, pos, negsuc}
use android_hardware_xiaomi.Fingerprint.Codes as Aidl

pub data RequestStatus : Type 0 where
  sys_ok sys_enoent sys_eintr sys_eio sys_eagain sys_enomem sys_eacces sys_efault sys_ebusy
        sys_einval sys_enospc sys_etimedout sys_unknown :
      RequestStatus

-- `negsuc n` is -(n + 1).
unfoldable pub error_filter : ℤ → RequestStatus
error_filter (pos n) = if n == 0 then sys_ok else sys_unknown
error_filter (negsuc n) =
    if n == 1
    then sys_enoent
    else if n == 3
    then sys_eintr
    else if n == 4
    then sys_eio
    else if n == 10
    then sys_eagain
    else if n == 11
    then sys_enomem
    else if n == 12
    then sys_eacces
    else if n == 13
    then sys_efault
    else if n == 15
    then sys_ebusy
    else if n == 21
    then sys_einval
    else if n == 27
    then sys_enospc
    else if n == 109
    then sys_etimedout
    else sys_unknown

pub data FingerprintError : Type 0 where
  error_hw_unavailable error_unable_to_process error_timeout error_no_space error_canceled :
      FingerprintError
  error_unable_to_remove error_lockout error_vendor : FingerprintError

pub data FingerprintAcquiredInfo : Type 0 where
  acquired_good acquired_partial acquired_insufficient acquired_imager_dirty :
      FingerprintAcquiredInfo
  acquired_too_slow acquired_too_fast acquired_vendor : FingerprintAcquiredInfo

abbrev pub is_vendor_info : FingerprintAcquiredInfo → Bool
is_vendor_info acquired_vendor = true
is_vendor_info acquired_good = false
is_vendor_info acquired_partial = false
is_vendor_info acquired_insufficient = false
is_vendor_info acquired_imager_dirty = false
is_vendor_info acquired_too_slow = false
is_vendor_info acquired_too_fast = false

-- The result and the vendor code.
unfoldable pub vendor_error_filter : ℤ → FingerprintError × ℕ
vendor_error_filter (negsuc n) = (error_unable_to_process, 0)
vendor_error_filter (pos n) =
    if n == 1
    then (error_hw_unavailable, 0)
    else if n == 2
    then (error_unable_to_process, 0)
    else if n == 3
    then (error_timeout, 0)
    else if n == 4
    then (error_no_space, 0)
    else if n == 5
    then (error_canceled, 0)
    else if n == 6
    then (error_unable_to_remove, 0)
    else if n == 7
    then (error_lockout, 0)
    else if leb 1000 n
    then (error_vendor, n - 1000)
    else (error_unable_to_process, 0)

unfoldable pub vendor_acquired_filter : ℤ → FingerprintAcquiredInfo × ℕ
vendor_acquired_filter (negsuc n) = (acquired_insufficient, 0)
vendor_acquired_filter (pos n) =
    if n == 0
    then (acquired_good, 0)
    else if n == 1
    then (acquired_partial, 0)
    else if n == 2
    then (acquired_insufficient, 0)
    else if n == 3
    then (acquired_imager_dirty, 0)
    else if n == 4
    then (acquired_too_slow, 0)
    else if n == 5
    then (acquired_too_fast, 0)
    else if leb 1000 n
    then (acquired_vendor, n - 1000)
    else (acquired_insufficient, 0)

-- The AIDL interface's error of an error here: it has none for the lockout.
abbrev pub to_aidl : FingerprintError × ℕ → Aidl.Error × ℕ
to_aidl (error_hw_unavailable, code) = (Aidl.hw_unavailable, code)
to_aidl (error_unable_to_process, code) = (Aidl.unable_to_process, code)
to_aidl (error_timeout, code) = (Aidl.timeout, code)
to_aidl (error_no_space, code) = (Aidl.no_space, code)
to_aidl (error_canceled, code) = (Aidl.canceled, code)
to_aidl (error_unable_to_remove, code) = (Aidl.unable_to_remove, code)
to_aidl (error_lockout, code) = (Aidl.vendor_error, 7)
to_aidl (error_vendor, code) = (Aidl.vendor_error, code)

-- The two services report the same error and vendor code for every code of the vendor's library,
-- where the AIDL service's vendor error 7 stands for the HIDL service's lockout.
pub vendor_error_filter-to_aidl :
    (code : ℤ) → to_aidl (vendor_error_filter code) ≡ Aidl.vendor_error_filter code
unfolding vendor_error_filter Aidl.vendor_error_filter
vendor_error_filter-to_aidl (negsuc n) = refl
vendor_error_filter-to_aidl (pos n) = ground arith

-- The HIDL service, unlike the AIDL one, keeps all known errors apart: two codes from 1 to 7 or from
-- 1000 on give the same error and vendor code only if they are the same.
pub vendor_error_filter_injective :
    (m n : ℕ)
    → 1 ≤ m
    → 1 ≤ n
    → (8 ≤ m → 1000 ≤ m)
    → (8 ≤ n → 1000 ≤ n)
    → (vendor_error_filter (pos m) ≡ vendor_error_filter (pos n)) ↔ (m ≡ n)
unfolding vendor_error_filter
vendor_error_filter_injective m n a b c d = (λ e. ground arith, λ e. ground arith)
