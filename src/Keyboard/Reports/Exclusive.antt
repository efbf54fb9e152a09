-- ===== src/Keyboard/Reports/Exclusive.antt =====
-- No received buffer is taken for two kinds of report.
use android_hardware_xiaomi.Common.{
  is_some, ℕ, ◌≡◌, refl, Bool, true, false, List, Option, none, some, arith, ◌==◌, if◌then◌else◌,
}
use android_hardware_xiaomi.Keyboard.Reports.{
  Buffer, byte, has_vendor_header, is_vendor_response, parse_status_report,
  parse_keyboard_version_report, parse_mcu_version_report, parse_hall_report,
  parse_keyboard_identity_report, parse_gsensor_report, parse_sleep_report,
  parse_feature_effect_report, parse_command_ack_report,
}

pub data ReportKind : Type 0 where
  status keyboard_version mcu_version hall identity gsensor sleep feature ack : ReportKind

-- Whether the parser of that kind returns a report.
unfoldable pub accepts : ReportKind → Buffer → Bool
accepts status buffer = is_some (parse_status_report buffer)
accepts keyboard_version buffer = is_some (parse_keyboard_version_report buffer)
accepts mcu_version buffer = is_some (parse_mcu_version_report buffer)
accepts hall buffer = is_some (parse_hall_report buffer)
accepts identity buffer = is_some (parse_keyboard_identity_report buffer)
accepts gsensor buffer = is_some (parse_gsensor_report buffer)
accepts sleep buffer = is_some (parse_sleep_report buffer)
accepts feature buffer = is_some (parse_feature_effect_report buffer)
accepts ack buffer = is_some (parse_command_ack_report buffer)

-- The kind that the protocol, source and command bytes name.
kind_of : ℕ → ℕ → ℕ → Option ReportKind
kind_of protocol source command =
    if protocol == 0x20
    then some hall
    else if protocol == 0x30
    then if source == 0x38 then some keyboard_version else some mcu_version
    else if command == 0xa2
    then some status
    else if command == 0x52
    then some identity
    else if command == 0x64
    then some gsensor
    else if command == 0x28
    then some sleep
    else if command == 0xf0
    then some ack
    else some feature

header_bytes :
    (bytes : List ℕ) (protocol source command : ℕ)
    → has_vendor_header (some bytes) protocol source command ≡ true
    → (byte bytes 1 ≡ protocol) × (byte bytes 2 ≡ source) × (byte bytes 4 ≡ command)
unfolding has_vendor_header
header_bytes bytes protocol source command h = ground arith

response_bytes :
    (bytes : List ℕ) (protocol source command : ℕ)
    → is_vendor_response bytes protocol source command ≡ true
    → (byte bytes 1 ≡ protocol) × (byte bytes 2 ≡ source) × (byte bytes 4 ≡ command)
unfolding is_vendor_response
response_bytes bytes protocol source command h =
    ground (arith, header_bytes bytes protocol source command)

accepts-kind_of :
    (k : ReportKind) (bytes : List ℕ)
    → accepts k (some bytes) ≡ true
    → kind_of (byte bytes 1) (byte bytes 2) (byte bytes 4) ≡ some k
unfolding accepts kind_of
accepts-kind_of status bytes h =
    unfold parse_status_report in ground (arith, response_bytes bytes 0x31 0x38 0xa2)
accepts-kind_of keyboard_version bytes h =
    unfold parse_keyboard_version_report in ground (arith, response_bytes bytes 0x30 0x38 0x01)
accepts-kind_of mcu_version bytes h =
    unfold parse_mcu_version_report in ground (arith, response_bytes bytes 0x30 0x18 0x01)
accepts-kind_of hall bytes h = unfold parse_hall_report in ground arith
accepts-kind_of identity bytes h =
    unfold parse_keyboard_identity_report in ground (arith, response_bytes bytes 0x31 0x38 0x52)
accepts-kind_of gsensor bytes h =
    unfold parse_gsensor_report in ground (arith, response_bytes bytes 0x31 0x38 0x64)
accepts-kind_of sleep bytes h =
    unfold parse_sleep_report in ground (arith, response_bytes bytes 0x31 0x38 0x28)
accepts-kind_of feature bytes h =
    unfold parse_feature_effect_report in
    ground (arith, response_bytes bytes 0x31 0x38 (byte bytes 4))
accepts-kind_of ack bytes h =
    unfold parse_command_ack_report in ground (arith, header_bytes bytes 0x31 0x38 0xf0)

accepts-null : (k : ReportKind) → accepts k none ≡ false
unfolding accepts parse_status_report parse_keyboard_version_report parse_mcu_version_report
    parse_hall_report parse_keyboard_identity_report parse_gsensor_report parse_sleep_report
    parse_feature_effect_report parse_command_ack_report
accepts-null status = refl
accepts-null _ = refl

-- Of the nine parsers that KeyboardController::onDeviceData tries in turn on a buffer, at most one
-- returns a report, whatever the buffer holds.
pub accepts_exclusive :
    (j k : ReportKind) (buffer : Buffer) → accepts j buffer ≡ true → accepts k buffer ≡ true → j ≡ k
accepts_exclusive j k none p q = cc (accepts-null j)
accepts_exclusive j k (some bytes) p q = cc (accepts-kind_of j bytes p, accepts-kind_of k bytes q)
