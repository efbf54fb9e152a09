-- ===== src/Keyboard/Reports/Padding.antt =====
-- What lies behind the checksum of a received frame does not matter.
use android_hardware_xiaomi.Common.{
  ℕ, zero, suc, ◌+◌, ◌≤◌, ◌<◌, ◌≡◌, refl, List, [], ◌∷◌, ◌++◌, length, length-append, take, drop,
  some, arith, ltb,
}
use android_hardware_xiaomi.Keyboard.Frame.{has_valid_checksum}
use android_hardware_xiaomi.Keyboard.Reports.{
  byte, has_vendor_header, is_vendor_response, status_report, version_report, gsensor_report,
  parse_status_report, parse_keyboard_version_report, parse_mcu_version_report,
  parse_keyboard_identity_report, parse_gsensor_report, parse_sleep_report,
  parse_feature_effect_report,
}

byte-append :
    (bytes rest : List ℕ) (i : ℕ) → i < length bytes → byte (bytes ++ rest) i ≡ byte bytes i
byte-append [] rest i h = elim h [ ]
byte-append (b ∷ bytes) rest zero h = refl
byte-append (b ∷ bytes) rest (suc i) h = byte-append bytes rest i (omega arith)

take-append :
    (n : ℕ) (bytes rest : List ℕ) → n ≤ length bytes → take n (bytes ++ rest) ≡ take n bytes
take-append zero bytes rest h = refl
take-append (suc n) [] rest h = elim h [ ]
take-append (suc n) (b ∷ bytes) rest h = rw (take-append n bytes rest (omega arith))

take-drop-append :
    (m n : ℕ) (bytes rest : List ℕ)
    → n + m ≤ length bytes
    → take m (drop n (bytes ++ rest)) ≡ take m (drop n bytes)
take-drop-append m zero bytes rest h = take-append m bytes rest (omega arith)
take-drop-append m (suc n) [] rest h = absurd (omega arith)
take-drop-append m (suc n) (b ∷ bytes) rest h = take-drop-append m n bytes rest (omega arith)

module _ (bytes rest : List ℕ) (framed : length bytes ≡ 7 + byte bytes 5) where
  same : (i : ℕ) → i < 7 + byte bytes 5 → byte (bytes ++ rest) i ≡ byte bytes i
  same i h = byte-append bytes rest i (omega arith)

  length_same :
      (n : ℕ) → n ≤ 7 + byte bytes 5 → ltb (length (bytes ++ rest)) n ≡ ltb (length bytes) n
  length_same n h = ground (arith, length-append bytes rest)

  checksum_same : has_valid_checksum (bytes ++ rest) ≡ has_valid_checksum bytes
  unfolding has_valid_checksum
  checksum_same =
      rw
        (
          has_valid_checksum,
          same 5 (omega arith),
          take-append (6 + byte bytes 5) bytes rest (omega arith),
          same (6 + byte bytes 5) (omega arith),
        )
        (ground (arith, length-append bytes rest))

  header_same :
      (protocol source command : ℕ)
      → has_vendor_header (some (bytes ++ rest)) protocol source command
        ≡ has_vendor_header (some bytes) protocol source command
  unfolding has_vendor_header
  header_same protocol source command = rw (
    has_vendor_header,
    length_same 5 (omega arith),
    same 0 (omega arith),
    same 1 (omega arith),
    same 2 (omega arith),
    same 3 (omega arith),
    same 4 (omega arith),
  )

  response_same :
      (protocol source command : ℕ)
      → is_vendor_response (bytes ++ rest) protocol source command
        ≡ is_vendor_response bytes protocol source command
  unfolding is_vendor_response
  response_same protocol source command =
      rw (is_vendor_response, header_same protocol source command, checksum_same)

  status_same : 13 ≤ byte bytes 5 → status_report (bytes ++ rest) ≡ status_report bytes
  unfolding status_report
  status_same h = rw (
    same 9 (omega arith),
    same 10 (omega arith),
    same 11 (omega arith),
    same 12 (omega arith),
    same 13 (omega arith),
    same 14 (omega arith),
    same 15 (omega arith),
    same 16 (omega arith),
    same 17 (omega arith),
    same 18 (omega arith),
  )

  version_same : 5 ≤ byte bytes 5 → version_report (bytes ++ rest) ≡ version_report bytes
  unfolding version_report
  version_same h = ground (
    arith,
    length-append bytes rest,
    same 5 (omega arith),
    same 6 (omega arith),
    same 7 (omega arith),
    same 8,
    same 9,
    same 10 (omega arith),
    same 13,
    same 14,
    same 17,
  )

  gsensor_same : 6 ≤ byte bytes 5 → gsensor_report (bytes ++ rest) ≡ gsensor_report bytes
  unfolding gsensor_report
  gsensor_same h = rw (
    same 6 (omega arith),
    same 7 (omega arith),
    same 8 (omega arith),
    same 9 (omega arith),
    same 10 (omega arith),
    same 11 (omega arith),
  )

  parse_status_same : parse_status_report (some (bytes ++ rest)) ≡ parse_status_report (some bytes)
  unfolding parse_status_report
  parse_status_same = ground (
    arith,
    length-append bytes rest,
    same 5 (omega arith),
    same 7,
    response_same 0x31 0x38 0xa2,
    status_same,
  )

  parse_version_same :
      parse_keyboard_version_report (some (bytes ++ rest))
      ≡ parse_keyboard_version_report (some bytes)
  unfolding parse_keyboard_version_report
  parse_version_same = ground (
    arith,
    length-append bytes rest,
    same 5 (omega arith),
    response_same 0x30 0x38 0x01,
    version_same,
  )

  parse_gsensor_same :
      parse_gsensor_report (some (bytes ++ rest)) ≡ parse_gsensor_report (some bytes)
  unfolding parse_gsensor_report
  parse_gsensor_same = ground (
    arith,
    length-append bytes rest,
    same 5 (omega arith),
    response_same 0x31 0x38 0x64,
    gsensor_same,
  )

  parse_mcu_same :
      parse_mcu_version_report (some (bytes ++ rest)) ≡ parse_mcu_version_report (some bytes)
  unfolding parse_mcu_version_report
  parse_mcu_same = ground (
    arith,
    length-append bytes rest,
    same 5 (omega arith),
    response_same 0x30 0x18 0x01,
    take-drop-append 16 7 bytes rest,
  )

  parse_identity_same :
      parse_keyboard_identity_report (some (bytes ++ rest))
      ≡ parse_keyboard_identity_report (some bytes)
  unfolding parse_keyboard_identity_report
  parse_identity_same = ground (
    arith,
    length-append bytes rest,
    same 5 (omega arith),
    response_same 0x31 0x38 0x52,
    take-drop-append 6 19 bytes rest,
  )

  parse_sleep_same : parse_sleep_report (some (bytes ++ rest)) ≡ parse_sleep_report (some bytes)
  unfolding parse_sleep_report
  parse_sleep_same = ground (
    arith,
    length-append bytes rest,
    same 5 (omega arith),
    same 6 (omega arith),
    response_same 0x31 0x38 0x28,
  )

  parse_feature_same :
      parse_feature_effect_report (some (bytes ++ rest)) ≡ parse_feature_effect_report (some bytes)
  unfolding parse_feature_effect_report
  parse_feature_same = ground (
    arith,
    length-append bytes rest,
    same 4 (omega arith),
    same 5 (omega arith),
    same 6 (omega arith),
    response_same 0x31 0x38 (byte bytes 4),
  )

  -- Take bytes that are as long as their length byte says, checksum included. Whatever the read
  -- buffer holds behind them, each of the seven checksummed parsers returns what it returns for
  -- those bytes alone: none of them reads a byte that the checksum does not cover.
  pub reports_ignore_padding :
      (parse_status_report (some (bytes ++ rest)) ≡ parse_status_report (some bytes))
      × (parse_keyboard_version_report (some (bytes ++ rest))
          ≡ parse_keyboard_version_report (some bytes))
      × (parse_mcu_version_report (some (bytes ++ rest)) ≡ parse_mcu_version_report (some bytes))
      × (parse_keyboard_identity_report (some (bytes ++ rest))
          ≡ parse_keyboard_identity_report (some bytes))
      × (parse_gsensor_report (some (bytes ++ rest)) ≡ parse_gsensor_report (some bytes))
      × (parse_sleep_report (some (bytes ++ rest)) ≡ parse_sleep_report (some bytes))
      × (parse_feature_effect_report (some (bytes ++ rest))
          ≡ parse_feature_effect_report (some bytes))
  reports_ignore_padding = (
    parse_status_same, parse_version_same, parse_mcu_same, parse_identity_same, parse_gsensor_same,
    parse_sleep_same, parse_feature_same,
  )
