-- ===== src/Fingerprint/Service.antt =====
-- aidl/fingerprint/Fingerprint.cpp: the service around the sessions. The configuration's values, the
-- splitting of strings at a character and ParseInt of android-base are parameters, and what the calls
-- of a module's libraries give is a function of its class name and its identifier. An empty module
-- identifier stands for FINGERPRINT_HARDWARE_MODULE_ID.
pub mod Renewal
use android_hardware_xiaomi.Common.{
  ℕ, suc, ◌+◌, ◌≡◌, refl, Bool, true, false, ◌&&◌, ◌||◌, not, List, [], ◌∷◌, ◌++◌, Option, none,
  some, length, arith, ◌==◌, if◌then◌else◌, bytes_eq,
}
use android_hardware_xiaomi.Common.Int.{ℤ}
use android_hardware_xiaomi.Fingerprint.Session.{Session, Step, Clock, Message, Call, new_session}
use android_hardware_xiaomi.Fingerprint.Lockout.{LockoutTracker}
use android_hardware_xiaomi.Fingerprint.Token.{Endian}
use android_hardware_xiaomi.Fingerprint.Session as Sessions

abbrev pub Split : Type 0
Split = ℕ → List ℕ → List (List ℕ)

-- What openFingerprintHal meets, in its order.
pub record Loading : Type 0 where
  pub loads : Bool
  pub given : Bool
  pub has_open : Bool
  pub opens : Bool
  pub takes_notify : Bool

unfoldable pub open_fingerprint_hal : Loading → Bool
open_fingerprint_hal l =
    if not l.loads
    then false
    else if not l.given
    then false
    else if not l.has_open
    then false
    else if not l.opens
    then false
    else l.takes_notify

abbrev goodix : List ℕ
goodix = b'g' ∷ b'o' ∷ b'o' ∷ b'd' ∷ b'i' ∷ b'x' ∷ []

abbrev fpc : List ℕ
fpc = b'f' ∷ b'p' ∷ b'c' ∷ []

abbrev fod : List ℕ
fod = b'_' ∷ b'f' ∷ b'o' ∷ b'd' ∷ []

abbrev gf_fingerprint : List ℕ
gf_fingerprint =
    b'g' ∷ b'f' ∷ b'_' ∷ b'f' ∷ b'i' ∷ b'n' ∷ b'g' ∷ b'e' ∷ b'r' ∷ b'p' ∷ b'r' ∷ b'i' ∷ b'n' ∷ b't'
    ∷ []

-- kModules.
unfoldable pub hal_modules : List (List ℕ)
hal_modules =
    (b'f' ∷ b'o' ∷ b'r' ∷ b't' ∷ b's' ∷ b'e' ∷ b'n' ∷ b's' ∷ b'e' ∷ [])
    ∷ fpc
    ∷ (fpc ++ fod)
    ∷ goodix
    ∷ (goodix ++ b':' ∷ gf_fingerprint)
    ∷ (goodix ++ fod)
    ∷ (goodix ++ fod ++ b'6' ∷ [])
    ∷ (b'j' ∷ b'i' ∷ b'i' ∷ b'o' ∷ b'v' ∷ [])
    ∷ (b's' ∷ b'i' ∷ b'l' ∷ b'e' ∷ b'a' ∷ b'd' ∷ [])
    ∷ (b's' ∷ b'y' ∷ b'n' ∷ b'a' ∷ [])
    ∷ []

-- The class name and the module identifier of an entry.
unfoldable pub class_of : List ℕ → List (List ℕ) → List ℕ × List ℕ
class_of module_name (name ∷ id ∷ []) = (name, id)
class_of module_name [] = (module_name, [])
class_of module_name (name ∷ []) = (module_name, [])
class_of module_name (name ∷ id ∷ part ∷ parts) = (module_name, [])

-- The first module of a list that opens.
unfoldable pub open_first : Split → (List ℕ → List ℕ → Loading) → List (List ℕ) → Option (List ℕ)
unfolding class_of open_fingerprint_hal
open_first split loading [] = none
open_first split loading (module_name ∷ names) =
    let c = class_of module_name (split b':' module_name) in
    if open_fingerprint_hal (loading c.0 c.1) then some c.0 else open_first split loading names

pub data SensorType : Type 0 where
  under_display_ultrasonic under_display_optical power_button home_button rear unknown_type :
      SensorType

abbrev word_udfps : List ℕ
word_udfps = b'u' ∷ b'd' ∷ b'f' ∷ b'p' ∷ b's' ∷ []

abbrev word_udfps_optical : List ℕ
word_udfps_optical = word_udfps ++ b'_' ∷ b'o' ∷ b'p' ∷ b't' ∷ b'i' ∷ b'c' ∷ b'a' ∷ b'l' ∷ []

-- The sensor's type, by the configured word; for `unknown_type` the process ends with an error.
unfoldable pub sensor_type : List ℕ → SensorType
sensor_type word =
    if bytes_eq word word_udfps || bytes_eq word word_udfps_optical
    then (if bytes_eq word word_udfps then under_display_ultrasonic else under_display_optical)
    else if bytes_eq word (b's' ∷ b'i' ∷ b'd' ∷ b'e' ∷ [])
    then power_button
    else if bytes_eq word (b'h' ∷ b'o' ∷ b'm' ∷ b'e' ∷ [])
    then home_button
    else if bytes_eq word (b'r' ∷ b'e' ∷ b'a' ∷ b'r' ∷ [])
    then rear
    else unknown_type

pub record SensorLocation : Type 0 where
  pub x : ℤ
  pub y : ℤ
  pub radius : ℤ
  pub display : List ℕ

abbrev three : Option ℤ → Option ℤ → Option ℤ → List ℕ → Option SensorLocation
three (some a) (some b) (some c) d = some (record { x = a; y = b; radius = c; display = d })
three (some a) (some b) none d = none
three (some a) none c d = none
three none b c d = none

-- The location of the parts of an entry.
unfoldable pub to_location : (List ℕ → Option ℤ) → List (List ℕ) → Option SensorLocation
to_location parse_int [] = none
to_location parse_int (x ∷ []) = none
to_location parse_int (x ∷ y ∷ []) = none
to_location parse_int (x ∷ y ∷ r ∷ []) = three (parse_int x) (parse_int y) (parse_int r) []
to_location parse_int (x ∷ y ∷ r ∷ d ∷ []) =
    if length d == 0 then none else three (parse_int x) (parse_int y) (parse_int r) d
to_location parse_int (x ∷ y ∷ r ∷ d ∷ part ∷ parts) = none

unfoldable pub locations : Split → (List ℕ → Option ℤ) → List (List ℕ) → List SensorLocation
unfolding to_location
locations split parse_int [] = []
locations split parse_int (entry ∷ entries) =
    let rest = locations split parse_int entries in
    elim (to_location parse_int (split b'|' entry)) [ none ↦ rest | some l ↦ l ∷ rest ]

unfoldable pub get_sensor_locations : Split → (List ℕ → Option ℤ) → List ℕ → List SensorLocation
unfolding locations
get_sensor_locations split parse_int loc = locations split parse_int (split b',' loc)

-- The service's own lockout tracker, and its session, the last that was created.
pub record Service : Type 0 where
  pub tracker : LockoutTracker
  pub has_udfps : Bool
  pub session : Option Session

abbrev pub with_session : Service → Step → Service × List Call
with_session v r = (record v { session = some r.0 }, r.1)

-- notify: the message goes to the session, if there is one that is not closed.
unfoldable pub service_notify : Clock → Endian → Message → Service → Service × List Call
service_notify clock endian message v = elim v.session [
  | none ↦ (v, [])
  | some s ↦ if s.closed then (v, []) else with_session v (Sessions.notify clock endian message s)
]

abbrev pub has_open_session : Option Session → Bool
has_open_session none = false
has_open_session (some s) = not s.closed

abbrev pub past_enrollments : Option Session → List ℕ
past_enrollments none = []
past_enrollments (some s) = s.enrollments

-- createSession: the process ends with an error if a session is open. The new session has a copy
-- of the service's tracker.
unfoldable pub create_session : ℕ → Service → Option (Service × List Call)
create_session user v =
    if has_open_session v.session
    then none
    else some (with_session v (new_session v.has_udfps user v.tracker (past_enrollments v.session)))

-- A method of the session, which the framework calls on it directly.
unfoldable pub call_session : (Session → Step) → Service → Service × List Call
call_session method v = elim v.session [ none ↦ (v, []) | some s ↦ with_session v (method s) ]
