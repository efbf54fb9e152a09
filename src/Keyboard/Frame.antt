-- ===== src/Keyboard/Frame.antt =====
-- aidl/keyboard/Protocol.cpp, the frames that the service sends: the checksum, the 66-byte command
-- frame and the commands built from it. A byte is a number below 256.
pub mod Layout
use android_hardware_xiaomi.Common.{
  ℕ, suc, ◌+◌, ◌-◌, ◌%◌, Bool, true, false, List, [], ◌∷◌, length, set, take, drop, replicate,
  get_or, ltb, leb, ◌==◌, if◌then◌else◌,
}

abbrev pub raw_frame_size : ℕ
raw_frame_size = 66

abbrev pub max_payload_size : ℕ
max_payload_size = 128

abbrev pub transport_report : ℕ
transport_report = 0x32

abbrev pub short_report : ℕ
short_report = 0x4e

abbrev pub long_report : ℕ
long_report = 0x4f

abbrev pub protocol_version : ℕ
protocol_version = 0x31

abbrev pub version_protocol : ℕ
version_protocol = 0x30

abbrev pub pad_address : ℕ
pad_address = 0x80

abbrev pub mcu_address : ℕ
mcu_address = 0x18

abbrev pub keyboard_address : ℕ
keyboard_address = 0x38

-- The bytes in [from, to), as a pair of pointers delimits them.
abbrev pub slice : List ℕ → ℕ → ℕ → List ℕ
slice bytes from to = take (to - from) (drop from bytes)

-- The loop over [begin, end); the sum is kept in a uint8_t.
unfoldable pub checksum_from : ℕ → List ℕ → ℕ
checksum_from value [] = value
checksum_from value (b ∷ bs) = checksum_from ((value + b) % 256) bs

unfoldable pub checksum : List ℕ → ℕ
unfolding checksum_from
checksum bytes = checksum_from 0 bytes

-- std::copy into a frame from index i on.
unfoldable pub write_at : List ℕ → ℕ → List ℕ → List ℕ
write_at frame i [] = frame
write_at frame i (b ∷ bs) = write_at (set frame i b) (suc i) bs

abbrev pub zero_frame : List ℕ
zero_frame = replicate raw_frame_size 0

unfoldable pub make_command : ℕ → ℕ → ℕ → ℕ → List ℕ → List ℕ
make_command report protocol target command payload =
    if ltb (raw_frame_size - 9) (length payload)
    then zero_frame
    else let f0 = set zero_frame 0 transport_report in
      let f1 = set f0 1 0x00 in
      let f2 = set f1 2 report in
      let f3 = set f2 3 protocol in
      let f4 = set f3 4 pad_address in
      let f5 = set f4 5 target in
      let f6 = set f5 6 command in
      let f7 = set f6 7 (length payload % 256) in
      let f8 = write_at f7 8 payload in
      set f8 (8 + length payload) (checksum (slice f8 2 (8 + length payload)))

unfoldable pub make_pogo_status_query : List ℕ
make_pogo_status_query =
    make_command short_report protocol_version keyboard_address 0xa1 (0x01 ∷ [])

unfoldable pub make_keyboard_version_query : List ℕ
make_keyboard_version_query =
    make_command short_report version_protocol keyboard_address 0x01 (0x00 ∷ [])

unfoldable pub make_mcu_version_query : List ℕ
make_mcu_version_query = make_command short_report version_protocol mcu_address 0x01 (0x00 ∷ [])

unfoldable pub make_hall_query : List ℕ
make_hall_query =
    let f0 = set zero_frame 0 transport_report in
    let f1 = set f0 1 0x00 in
    let f2 = set f1 2 long_report in
    let f3 = set f2 3 0x20 in
    let f4 = set f3 4 pad_address in
    let f5 = set f4 5 pad_address in
    let f6 = set f5 6 0xe1 in let f7 = set f6 7 0x01 in set f7 8 0x00

-- The address is an array of six bytes, zero by default.
unfoldable pub make_keyboard_identity_query : List ℕ → List ℕ
make_keyboard_identity_query address =
    make_command short_report protocol_version keyboard_address 0x52 address

unfoldable pub make_gsensor_query : List ℕ
make_gsensor_query = make_command short_report protocol_version keyboard_address 0x52 []

unfoldable pub make_feature_command : ℕ → ℕ → List ℕ
make_feature_command command value =
    make_command short_report protocol_version keyboard_address command (value ∷ [])

pub data IndicatorStyle : Type 0 where
  legacy xm2022 : IndicatorStyle

abbrev pub is_xm2022 : IndicatorStyle → Bool
is_xm2022 legacy = false
is_xm2022 xm2022 = true

unfoldable pub make_caps_lock_light_command : Bool → IndicatorStyle → List ℕ
make_caps_lock_light_command enabled style =
    if is_xm2022 style
    then make_feature_command 0x26 (if enabled then 0x01 else 0x00)
    else make_feature_command 0x2e (if enabled then 0xfd else 0xfc)

unfoldable pub make_mute_light_command : Bool → IndicatorStyle → List ℕ
make_mute_light_command muted style =
    make_feature_command (if is_xm2022 style then 0x26 else 0x2e) (if muted then 0xf7 else 0xf3)

-- The check of a received frame: the sixth byte is the payload's length, and the byte behind the
-- payload is the checksum of all before it.
unfoldable pub has_valid_checksum : List ℕ → Bool
has_valid_checksum bytes =
    if ltb (length bytes) 7
    then false
    else let index = 6 + get_or bytes 5 0 in
      if leb (length bytes) index
      then false
      else checksum (take index bytes) == get_or bytes index 0
