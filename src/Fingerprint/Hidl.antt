-- ===== src/Fingerprint/Hidl.antt =====
-- hidl/biometrics/fingerprint/BiometricsFingerprint.cpp: the HIDL fingerprint service. A method
-- gives the calls that it makes of the vendor's device and the under-display handler; what the
-- device answers is an argument. The float arguments of a touch are opaque numbers, the address
-- of the device is `dev_id`, and the caller of a method is there only if the device was opened.
pub mod Codes
pub mod Modules
pub mod Paths
use android_hardware_xiaomi.Common.{
  ℕ, Bool, true, false, ◌||◌, not, List, [], ◌∷◌, ◌++◌, length, drop, leb, ◌==◌, if◌then◌else◌,
}
use android_hardware_xiaomi.Common.Int.{ℤ, pos, negsuc}
use android_hardware_xiaomi.Fingerprint.Hidl.Codes.{
  RequestStatus, sys_einval, error_filter, FingerprintError, FingerprintAcquiredInfo,
  is_vendor_info, vendor_error_filter, vendor_acquired_filter,
}

pub record Service : Type 0 where
  pub has_client : Bool
  pub has_handler : Bool
  pub is_udfps : Bool
  pub dev_id : ℕ

pub data Call : Type 0 where
  pre_enroll_device post_enroll_device get_device_authenticator_id cancel_device enumerate_device :
      Call
  enroll_device : List ℕ → ℕ → ℕ → Call
  remove_device : ℕ → ℕ → Call
  authenticate_device : ℕ → ℕ → Call
  set_device_group : ℕ → List ℕ → Call
  handler_cancel handler_up : Call
  handler_down : ℕ → ℕ → ℕ → ℕ → Call
  handler_acquired : FingerprintAcquiredInfo → ℕ → Call
  on_error : ℕ → FingerprintError → ℕ → Call
  on_acquired : ℕ → FingerprintAcquiredInfo → ℕ → Call
  on_enroll_result on_removed on_enumerate : ℕ → ℕ → ℕ → ℕ → Call
  on_authenticated : ℕ → ℕ → ℕ → List ℕ → Call

abbrev pub when_handler : Service → Call → List Call
when_handler s call = if s.has_handler then call ∷ [] else []

-- setNotify, with whether the client's callback is one; the result is the device.
unfoldable pub set_notify : Bool → Service → Service × ℕ
set_notify callback s = (record s { has_client = callback }, s.dev_id)

unfoldable pub pre_enroll : ℕ → List Call × ℕ
pre_enroll answer = (pre_enroll_device ∷ [], answer)

unfoldable pub enroll : ℤ → List ℕ → ℕ → ℕ → List Call × RequestStatus
unfolding error_filter
enroll answer hat gid timeout = (enroll_device hat gid timeout ∷ [], error_filter answer)

unfoldable pub post_enroll : ℤ → List Call × RequestStatus
unfolding error_filter
post_enroll answer = (post_enroll_device ∷ [], error_filter answer)

unfoldable pub get_authenticator_id : ℕ → List Call × ℕ
get_authenticator_id answer = (get_device_authenticator_id ∷ [], answer)

unfoldable pub cancel : ℤ → Service → List Call × RequestStatus
unfolding error_filter
cancel answer s = (when_handler s handler_cancel ++ cancel_device ∷ [], error_filter answer)

unfoldable pub enumerate : ℤ → List Call × RequestStatus
unfolding error_filter
enumerate answer = (enumerate_device ∷ [], error_filter answer)

unfoldable pub remove : ℤ → ℕ → ℕ → List Call × RequestStatus
unfolding error_filter
remove answer gid fid = (remove_device gid fid ∷ [], error_filter answer)

unfoldable pub authenticate : ℤ → ℕ → ℕ → List Call × RequestStatus
unfolding error_filter
authenticate answer operation gid = (authenticate_device operation gid ∷ [], error_filter answer)

unfoldable pub on_finger_down : ℕ → ℕ → ℕ → ℕ → Service → List Call
on_finger_down x y minor major s = when_handler s (handler_down x y minor major)

unfoldable pub on_finger_up : Service → List Call
on_finger_up s = when_handler s handler_up

-- "/data/system/users/" and "/data/vendor_de/".
abbrev pub users_prefix : List ℕ
users_prefix =
    b'/' ∷ b'd' ∷ b'a' ∷ b't' ∷ b'a' ∷ b'/' ∷ b's' ∷ b'y' ∷ b's' ∷ b't' ∷ b'e' ∷ b'm' ∷ b'/' ∷ b'u'
    ∷ b's' ∷ b'e' ∷ b'r' ∷ b's' ∷ b'/' ∷ []

abbrev pub vendor_prefix : List ℕ
vendor_prefix =
    b'/' ∷ b'd' ∷ b'a' ∷ b't' ∷ b'a' ∷ b'/' ∷ b'v' ∷ b'e' ∷ b'n' ∷ b'd' ∷ b'o' ∷ b'r' ∷ b'_' ∷ b'd'
    ∷ b'e' ∷ b'/' ∷ []

-- The path's start is the prefix.
abbrev pub starts_with : List ℕ → List ℕ → Bool
starts_with path [] = true
starts_with [] (b ∷ prefix) = false
starts_with (a ∷ path) (b ∷ prefix) = if a == b then starts_with path prefix else false

unfoldable pub store_path : List ℕ → List ℕ
store_path path =
    if starts_with path users_prefix then vendor_prefix ++ drop (length users_prefix) path else path

-- setActiveGroup: PATH_MAX and what access says are parameters.
unfoldable pub set_active_group : ℕ → (List ℕ → Bool) → ℤ → ℕ → List ℕ → List Call × RequestStatus
set_active_group path_max writable answer gid path =
    if leb path_max (length path) || length path == 0
    then ([], sys_einval)
    else if not (writable (store_path path))
    then ([], sys_einval)
    else (set_device_group gid (store_path path) ∷ [], error_filter answer)

-- A message of the vendor's library.
pub data Message : Type 0 where
  error_message : ℤ → Message
  acquired_message : ℤ → Message
  enrolling removed enumerating : ℕ → ℕ → ℕ → Message
  authenticated : ℕ → ℕ → List ℕ → Message
  other_message : Message

unfoldable pub deliver : Message → Service → List Call
unfolding vendor_error_filter vendor_acquired_filter
deliver (error_message code) s =
    let (result, vendor_code) = vendor_error_filter code in
    on_error s.dev_id result vendor_code ∷ []
deliver (acquired_message info) s =
    let (result, vendor_code) = vendor_acquired_filter info in
    when_handler s (handler_acquired result vendor_code)
    ++ (if is_vendor_info result then [] else on_acquired s.dev_id result vendor_code ∷ [])
deliver (enrolling fid gid remaining) s = on_enroll_result s.dev_id fid gid remaining ∷ []
deliver (removed fid gid remaining) s = on_removed s.dev_id fid gid remaining ∷ []
deliver (enumerating fid gid remaining) s = on_enumerate s.dev_id fid gid remaining ∷ []
deliver (authenticated fid gid hat) s =
    on_authenticated s.dev_id fid gid (if not (fid == 0) then hat else []) ∷ []
deliver other_message s = []

unfoldable pub notify : Message → Service → List Call
unfolding deliver
notify message s = if s.has_client then deliver message s else []
