-- ===== src/Keyboard/Reports.antt =====
-- aidl/keyboard/Protocol.cpp, the reports that the service receives. A buffer is a pointer with a
-- size: `none` is the null pointer. `byte bytes i` is data[i]; the parsers read below `size` only.
pub mod Exclusive
pub mod Padding
pub mod Values
use android_hardware_xiaomi.Common.{
  ℕ, ◌+◌, ◌-◌, ◌*◌, ◌/◌, ◌^◌, Bool, true, false, ◌&&◌, ◌||◌, not, List, [], ◌∷◌, length, take, drop,
  get_or, Option, none, some, ltb, leb, ◌==◌, if◌then◌else◌, bit_and, bit_or,
}
use mathlib.Core.List.{reverse}
use android_hardware_xiaomi.Common.Int.{ℤ, pos, negsuc, sub_ℕ, neg}
use android_hardware_xiaomi.Keyboard.Frame.{
  has_valid_checksum, protocol_version, version_protocol, pad_address, mcu_address,
  keyboard_address,
}

abbrev pub Buffer : Type 0
Buffer = Option (List ℕ)

abbrev pub byte : List ℕ → ℕ → ℕ
byte bytes i = get_or bytes i 0

-- lo | (hi << 8), truncated to 16 bits by its type: both are bytes.
unfoldable pub le16 : ℕ → ℕ → ℕ
le16 lo hi = bit_or lo (hi * 2 ^ 8)

pub record StatusReport : Type 0 where
  pub connected : Bool
  pub pogo_pin_healthy : Bool
  pub over_current : Bool
  pub leather_case_or_trx_error : Bool
  pub keyboard_status : ℕ
  pub battery_millivolts : ℕ
  pub uart_errors : ℕ
  pub ppm_errors : ℕ
  pub serial : ℕ
  pub power_up_count : ℕ

pub record KeyboardVersionReport : Type 0 where
  pub keyboard_version : ℕ
  pub touchpad_version : ℕ
  pub keyboard_info : ℕ
  pub keyboard_type : ℕ
  pub touchpad_type : ℕ
  pub bluetooth : Bool

pub record KeyboardIdentityReport : Type 0 where
  pub bluetooth_address : List ℕ

-- The accelerations are floats in the source: raw * 9.8 / 256. Here they are the signed multiples
-- of 9.8 / 256 m/s^2.
pub record GsensorReport : Type 0 where
  pub raw_x : ℤ
  pub raw_y : ℤ
  pub raw_z : ℤ
  pub x : ℤ
  pub y : ℤ
  pub z : ℤ

pub record SleepReport : Type 0 where
  pub sleeping : Bool

pub record FeatureEffectReport : Type 0 where
  pub command : ℕ
  pub value : ℕ

pub record CommandAckReport : Type 0 where
  pub command : ℕ
  pub status : ℕ

-- An int16_t by its bit pattern.
abbrev int16 : ℕ → ℤ
int16 p = if ltb p 0x8000 then pos p else negsuc (0xffff - p)

unfoldable pub sign_extend12 : ℕ → ℤ
sign_extend12 value =
    let v = bit_and value 0x0fff in
    int16 (if not (bit_and v 0x0800 == 0) then bit_or v 0xf000 else v)

unfoldable pub has_vendor_header : Buffer → ℕ → ℕ → ℕ → Bool
has_vendor_header none protocol source command = false
has_vendor_header (some bytes) protocol source command =
    if ltb (length bytes) 5
    then false
    else if byte bytes 0 == 0x22
        || byte bytes 0 == 0x23
        || byte bytes 0 == 0x24
        || byte bytes 0 == 0x26
    then byte bytes 1 == protocol
      && byte bytes 2 == source
      && byte bytes 3 == pad_address
      && byte bytes 4 == command
    else false

unfoldable pub is_vendor_response : List ℕ → ℕ → ℕ → ℕ → Bool
is_vendor_response bytes protocol source command =
    has_vendor_header (some bytes) protocol source command && has_valid_checksum bytes

-- (data[17] >> 4) & 0x0f and the other fields of the status.
unfoldable pub status_report : List ℕ → StatusReport
status_report bytes =
    let status = byte bytes 9 in
    let over_current = not (byte bytes 18 == 0) in
    let healthy = bit_and status 0x63 == 0x23 in
    record {
      connected = not over_current && healthy;
      pogo_pin_healthy = healthy;
      over_current = over_current;
      leather_case_or_trx_error = bit_and status 0x03 == 0x01;
      keyboard_status = status;
      battery_millivolts = le16 (byte bytes 10) (byte bytes 11);
      uart_errors = le16 (byte bytes 12) (byte bytes 13);
      ppm_errors =
          bit_or (bit_or (bit_or (byte bytes 14) (byte bytes 15 * 2 ^ 8)) (byte bytes 16 * 2 ^ 16))
            (byte bytes 17 * 2 ^ 24);
      serial = bit_and (byte bytes 17) 0x07;
      power_up_count = bit_and (byte bytes 17 / 2 ^ 4) 0x0f;
    }

unfoldable pub parse_status_report : Buffer → Option StatusReport
parse_status_report none = none
parse_status_report (some bytes) =
    if ltb (length bytes) 20
      || ltb (byte bytes 5) 13
      || not (is_vendor_response bytes protocol_version keyboard_address 0xa2)
      || not (byte bytes 7 == 0)
    then none
    else some (status_report bytes)

unfoldable pub version_report : List ℕ → KeyboardVersionReport
version_report bytes =
    let with_touchpad = not (byte bytes 5 == 5) && ltb 9 (length bytes) in
    let with_types = leb 12 (byte bytes 5) && leb 19 (length bytes) in
    record {
      keyboard_version = le16 (byte bytes 6) (byte bytes 7);
      touchpad_version = if with_touchpad then le16 (byte bytes 8) (byte bytes 9) else 0;
      keyboard_info = byte bytes 10;
      keyboard_type = if with_types then byte bytes 13 else 0;
      touchpad_type = if with_types then byte bytes 14 else 0;
      bluetooth = if with_types then byte bytes 17 == 1 else false;
    }

unfoldable pub parse_keyboard_version_report : Buffer → Option KeyboardVersionReport
parse_keyboard_version_report none = none
parse_keyboard_version_report (some bytes) =
    if ltb (length bytes) 12
      || ltb (byte bytes 5) 5
      || not (is_vendor_response bytes version_protocol keyboard_address 0x01)
    then none
    else some (version_report bytes)

-- '\0' or std::isspace in the C locale.
abbrev is_padding : ℕ → Bool
is_padding c = c == 0 || c == b' ' || leb 9 c && leb c 13

-- The loop that pops the back of the string runs on the reversed text.
unfoldable pub drop_padding : List ℕ → List ℕ
drop_padding [] = []
drop_padding (c ∷ cs) = let rest = drop_padding cs in if is_padding c then rest else c ∷ cs

unfoldable pub parse_mcu_version_report : Buffer → Option (List ℕ)
parse_mcu_version_report none = none
parse_mcu_version_report (some bytes) =
    if ltb (length bytes) 24
      || ltb (byte bytes 5) 17
      || not (is_vendor_response bytes version_protocol mcu_address 0x01)
    then none
    else some (reverse (drop_padding (reverse (take 16 (drop 7 bytes)))))

unfoldable pub parse_hall_report : Buffer → Option ℕ
parse_hall_report none = none
parse_hall_report (some bytes) =
    if ltb (length bytes) 7
      || not (
          byte bytes 0 == 0x24
          && byte bytes 1 == 0x20
          && byte bytes 2 == 0x80
          && byte bytes 3 == 0x80
          && byte bytes 4 == 0xe1
          && byte bytes 5 == 0x01)
    then none
    else if not (bit_and (byte bytes 6) 0xee == 0)
    then none
    else some (byte bytes 6)

unfoldable pub parse_keyboard_identity_report : Buffer → Option KeyboardIdentityReport
parse_keyboard_identity_report none = none
parse_keyboard_identity_report (some bytes) =
    if leb (length bytes) (19 + 6)
      || ltb (byte bytes 5) 19
      || not (is_vendor_response bytes protocol_version keyboard_address 0x52)
    then none
    else some (record { bluetooth_address = take 6 (drop 19 bytes) })

unfoldable pub gsensor_report : List ℕ → GsensorReport
gsensor_report bytes =
    let axis =
      λ (lo : ℕ) (hi : ℕ). sign_extend12 (bit_or (byte bytes lo / 2 ^ 4) (byte bytes hi * 2 ^ 4)) in
    record {
      raw_x = axis 6 7;
      raw_y = axis 8 9;
      raw_z = axis 10 11;
      x = axis 6 7;
      y = neg (axis 8 9);
      z = neg (axis 10 11);
    }

unfoldable pub parse_gsensor_report : Buffer → Option GsensorReport
parse_gsensor_report none = none
parse_gsensor_report (some bytes) =
    if ltb (length bytes) 13
      || ltb (byte bytes 5) 6
      || not (is_vendor_response bytes protocol_version keyboard_address 0x64)
    then none
    else some (gsensor_report bytes)

unfoldable pub parse_sleep_report : Buffer → Option SleepReport
parse_sleep_report none = none
parse_sleep_report (some bytes) =
    if ltb (length bytes) 8
      || not (byte bytes 5 == 1)
      || not (is_vendor_response bytes protocol_version keyboard_address 0x28)
      || ltb 1 (byte bytes 6)
    then none
    else some (record { sleeping = byte bytes 6 == 0 })

unfoldable pub parse_feature_effect_report : Buffer → Option FeatureEffectReport
parse_feature_effect_report none = none
parse_feature_effect_report (some bytes) =
    if ltb (length bytes) 8 || not (byte bytes 5 == 1)
    then none
    else if not (byte bytes 4 == 0x23 || byte bytes 4 == 0x26 || byte bytes 4 == 0x2e)
    then none
    else if not (is_vendor_response bytes protocol_version keyboard_address (byte bytes 4))
    then none
    else some (record { command = byte bytes 4; value = byte bytes 6 })

unfoldable pub parse_command_ack_report : Buffer → Option CommandAckReport
parse_command_ack_report none = none
parse_command_ack_report (some bytes) =
    if ltb (length bytes) 8
      || not (has_vendor_header (some bytes) protocol_version keyboard_address 0xf0)
    then none
    else some (record { command = byte bytes 5; status = byte bytes 7 })
