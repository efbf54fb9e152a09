-- ===== src/Touch.antt =====
-- aidl/touch: HighTouchPollingRate.cpp, KeyDisabler.cpp and KeySwapper.cpp, three switches of the
-- touch panel. Each is a file of the kernel: what reading it gives, if it can be read, and
-- whether it can be written. What the kernel shows of a text that was written is a parameter, and
-- so is Trim of android-base. The key disabler's file holds the opposite, whether the keys are
-- enabled.
use Prim.Native.String.{String}
use text.Mathlib.Text.{◌==◌}
use android_hardware_xiaomi.Common.{◌≡◌, refl, Bool, true, false, Option, none, some, if◌then◌else◌}

pub record ControlFile : Type 0 where
  pub content : Option String
  pub writable : Bool

pub data Status : Type 0 where
  ok unsupported_operation : Status

-- getEnabled: no value where the file cannot be read.
unfoldable pub get_polling_rate : (String → String) → ControlFile → Option Bool
get_polling_rate trim f = elim f.content [ none ↦ none | some buf ↦ some (trim buf == "1") ]

unfoldable pub get_key_disabler : (String → String) → ControlFile → Option Bool
get_key_disabler trim f = elim f.content [ none ↦ none | some buf ↦ some (trim buf == "0") ]

unfoldable pub get_key_swapper : (String → String) → ControlFile → Option Bool
get_key_swapper trim f = elim f.content [ none ↦ none | some buf ↦ some (trim buf == "1") ]

-- WriteStringToFile.
abbrev pub write_file : (String → String) → String → ControlFile → ControlFile × Status
write_file show text f =
    if f.writable then (record f { content = some (show text) }, ok) else (f, unsupported_operation)

unfoldable pub set_polling_rate : (String → String) → Bool → ControlFile → ControlFile × Status
set_polling_rate show enabled f = write_file show (if enabled then "1" else "0") f

unfoldable pub set_key_disabler : (String → String) → Bool → ControlFile → ControlFile × Status
set_key_disabler show enabled f = write_file show (if enabled then "0" else "1") f

unfoldable pub set_key_swapper : (String → String) → Bool → ControlFile → ControlFile × Status
set_key_swapper show enabled f = write_file show (if enabled then "1" else "0") f

-- The kernel shows a digit that was written, with white space around it at most.
pub record ShowsDigits (show trim : String → String) : Type 0 where
  pub zero : trim (show "0") ≡ "0"
  pub one : trim (show "1") ≡ "1"

-- Where its file can be written and the kernel shows a written digit, with white space at most around
-- it, each of the three switches reads back what was set.
pub get-set :
    (show trim : String → String) (enabled : Bool) (f : ControlFile)
    → ShowsDigits show trim
    → f.writable ≡ true
    → (get_polling_rate trim (set_polling_rate show enabled f).0 ≡ some enabled)
      × (get_key_disabler trim (set_key_disabler show enabled f).0 ≡ some enabled)
      × (get_key_swapper trim (set_key_swapper show enabled f).0 ≡ some enabled)
unfolding get_polling_rate get_key_disabler get_key_swapper set_polling_rate set_key_disabler
    set_key_swapper
get-set show trim true f shows w = rw (w, shows.zero, shows.one) (refl, refl, refl)
get-set show trim false f shows w = rw (w, shows.zero, shows.one) (refl, refl, refl)
