-- ===== src/Examples/Frames.antt =====
-- aidl/keyboard/Protocol.cpp at concrete frames: a connected keyboard's status, a report that the
-- keyboard falls asleep, and commands of the service.
use android_hardware_xiaomi.Common.{
  ℕ, zero, suc, ◌<◌, ◌≡◌, refl, Bool, true, ◌&&◌, List, [], ◌∷◌, ◌++◌, replicate, some, arith, ltb,
}
use android_hardware_xiaomi.Keyboard.Frame.{
  checksum, make_command, has_valid_checksum, transport_report,
}
use android_hardware_xiaomi.Keyboard.Frame.Layout.{covered, make_command_layout}
use android_hardware_xiaomi.Keyboard.Reports.{
  byte, status_report, parse_status_report, parse_keyboard_version_report, parse_mcu_version_report,
  parse_keyboard_identity_report, parse_gsensor_report, parse_sleep_report,
  parse_feature_effect_report, is_vendor_response, has_vendor_header,
}
use android_hardware_xiaomi.Keyboard.Reports.Padding.{reports_ignore_padding}
use android_hardware_xiaomi.Keyboard.Reports.Exclusive.{status, accepts, accepts_exclusive}

abbrev pub status_bytes : List ℕ
status_bytes =
    0x24 ∷ 0x31 ∷ 0x38 ∷ 0x80 ∷ 0xa2 ∷ 13 ∷ 0 ∷ 0 ∷ 0 ∷ 0x23 ∷ 0x10 ∷ 0x0e ∷ 1 ∷ 0 ∷ 2 ∷ 0 ∷ 0
    ∷ 0x15 ∷ 0 ∷ 21 ∷ []

abbrev pub sleep_bytes : List ℕ
sleep_bytes = 0x24 ∷ 0x31 ∷ 0x38 ∷ 0x80 ∷ 0x28 ∷ 1 ∷ 0 ∷ 54 ∷ []

make_command_layout_example :
    make_command 0x4e 0x31 0x38 0x25 (1 ∷ 7 ∷ [])
    ≡ transport_report
      ∷ 0
      ∷ (covered 0x4e 0x31 0x38 0x25 (1 ∷ 7 ∷ [])
          ++ checksum (covered 0x4e 0x31 0x38 0x25 (1 ∷ 7 ∷ [])) ∷ replicate 55 0)
make_command_layout_example = make_command_layout 0x4e 0x31 0x38 0x25 (1 ∷ 7 ∷ []) 55 refl

-- A test: two bytes that differ give two checksums.
checksums_differ : checksum (1 ∷ 9 ∷ 200 ∷ []) ≡ 210
unfolding checksum
checksums_differ = refl

reports_ignore_padding_example :
    (parse_status_report (some (status_bytes ++ 1 ∷ 2 ∷ []))
      ≡ parse_status_report (some status_bytes))
    × (parse_keyboard_version_report (some (status_bytes ++ 1 ∷ 2 ∷ []))
        ≡ parse_keyboard_version_report (some status_bytes))
    × (parse_mcu_version_report (some (status_bytes ++ 1 ∷ 2 ∷ []))
        ≡ parse_mcu_version_report (some status_bytes))
    × (parse_keyboard_identity_report (some (status_bytes ++ 1 ∷ 2 ∷ []))
        ≡ parse_keyboard_identity_report (some status_bytes))
    × (parse_gsensor_report (some (status_bytes ++ 1 ∷ 2 ∷ []))
        ≡ parse_gsensor_report (some status_bytes))
    × (parse_sleep_report (some (status_bytes ++ 1 ∷ 2 ∷ []))
        ≡ parse_sleep_report (some status_bytes))
    × (parse_feature_effect_report (some (status_bytes ++ 1 ∷ 2 ∷ []))
        ≡ parse_feature_effect_report (some status_bytes))
reports_ignore_padding_example = reports_ignore_padding status_bytes (1 ∷ 2 ∷ []) refl

pub status_parsed : parse_status_report (some status_bytes) ≡ some (status_report status_bytes)
unfolding parse_status_report has_vendor_header has_valid_checksum is_vendor_response checksum
status_parsed = refl

pub status_accepted : accepts status (some status_bytes) ≡ true
unfolding accepts parse_status_report has_vendor_header has_valid_checksum is_vendor_response
    checksum
status_accepted = refl

accepts_exclusive_example : status ≡ status
accepts_exclusive_example =
    accepts_exclusive status status (some status_bytes) status_accepted status_accepted

abbrev all_bytes : List ℕ → Bool
all_bytes [] = true
all_bytes (b ∷ bs) = ltb b 256 && all_bytes bs

all_bytes_sound : (bs : List ℕ) → all_bytes bs ≡ true → (i : ℕ) → byte bs i < 256
all_bytes_sound [] all i = omega arith
all_bytes_sound (b ∷ bs) all zero = ground arith
all_bytes_sound (b ∷ bs) all (suc i) = all_bytes_sound bs (ground arith) i
