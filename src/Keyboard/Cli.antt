-- ===== src/Keyboard/Cli.antt =====
-- aidl/keyboard/keyboard_client.cpp: the command line client. What strtoul makes of an argument is
-- a parameter; printing is left out. A failed call of the service is an argument.
pub mod Words
pub mod Callback
pub mod Commands
pub mod Delivery
pub mod Responses
use android_hardware_xiaomi.Common.{
  bytes_eq, ℕ, suc, ◌+◌, ◌-◌, ◌%◌, Bool, true, false, ◌&&◌, ◌||◌, not, List, [], ◌∷◌, ◌++◌, length,
  take, drop, replicate, Option, none, some, ltb, leb, ◌==◌, if◌then◌else◌, bit_and, bit_or,
}
use android_hardware_xiaomi.Common.Int.{ℤ, pos, negsuc, is_zero_ℤ, ltb_ℤ}
use android_hardware_xiaomi.Keyboard.Frame.{
  raw_frame_size, IndicatorStyle, legacy, xm2022, make_pogo_status_query,
  make_keyboard_version_query, make_mcu_version_query, make_hall_query,
  make_keyboard_identity_query, make_gsensor_query, make_feature_command,
  make_caps_lock_light_command, make_mute_light_command,
}
use android_hardware_xiaomi.Keyboard.Reports.{
  byte, FeatureEffectReport, CommandAckReport, parse_feature_effect_report,
  parse_command_ack_report,
}
use android_hardware_xiaomi.Keyboard.Reports.Exclusive.{
  ReportKind, status, keyboard_version, mcu_version, hall, identity, gsensor, sleep, feature, ack,
  accepts,
}
use android_hardware_xiaomi.Keyboard.Cli.Words.{
  word_status, word_version, word_hall, word_identity, word_gsensor, word_touchpad, word_backlight,
  word_power, word_caps, word_mute, word_raw, word_legacy, word_xm2022,
}
use android_hardware_xiaomi.Keyboard.Cli.Callback.{Wait, no_wait, wait_effect, wait_responses}

-- strtoul: whether errno was set, whether anything was consumed and whether all of it was, and the
-- value.
pub record Parsed : Type 0 where
  pub has_errno : Bool
  pub nothing_consumed : Bool
  pub ends : Bool
  pub value : ℕ

abbrev pub Strtoul : Type 0
Strtoul = ℕ → List ℕ → Parsed

unfoldable pub parse_byte : Strtoul → ℕ → List ℕ → Option ℕ
parse_byte strtoul base text =
    let p = strtoul base text in
    if p.has_errno || p.nothing_consumed || not p.ends || ltb 0xff p.value
    then none
    else some p.value

unfoldable pub parse_indicator_style : List ℕ → Option IndicatorStyle
parse_indicator_style text =
    if bytes_eq text word_legacy
    then some legacy
    else if bytes_eq text word_xm2022
    then some xm2022
    else none

unfoldable pub binder_frame : List ℕ → List ℕ
binder_frame raw = 0xaa ∷ length raw % 256 ∷ raw

unfoldable pub valid_raw_command : List ℕ → Bool
valid_raw_command [] = false
valid_raw_command (b ∷ bytes) =
    if b == 0x32
    then leb (suc (length bytes)) raw_frame_size
    else if ltb (suc (length bytes)) 3
        || not (b == 0xaa)
        || byte (b ∷ bytes) 1 == 0
        || ltb raw_frame_size (byte (b ∷ bytes) 1)
    then false
    else suc (length bytes) == byte (b ∷ bytes) 1 + 2 && byte (b ∷ bytes) 2 == 0x32

-- What a command line asks for: the usage text, an error message, some commands in order, or raw
-- bytes.
pub data Plan : Type 0 where
  usage bad_byte bad_raw : Plan
  sends : List (List ℕ) → Wait → Plan
  sends_raw : List ℕ → Plan

abbrev pub zero_address : List ℕ
zero_address = replicate 6 0

-- The commands that take no value, each with the argument count it wants.
unfoldable pub query_plan : ℕ → List (List ℕ) → Wait → Plan
query_plan argc frames wait = if argc == 2 then sends frames wait else usage

unfoldable pub feature_plan : List ℕ → Option ℕ → Plan
feature_plan command none = usage
feature_plan command (some value) =
    let is_backlight = bytes_eq command word_backlight in
    let feature_id =
      (if is_backlight then 0x23 else if bytes_eq command word_power then 0x25 else 0x21) in
    if ltb (if is_backlight then 100 else 1) value
    then usage
    else sends (binder_frame (make_feature_command feature_id value) ∷ [])
        (if is_backlight then wait_effect feature_id value else no_wait)

unfoldable pub indicator_plan : Bool → Option IndicatorStyle → Option ℕ → Plan
indicator_plan is_caps none value = usage
indicator_plan is_caps (some style) none = usage
indicator_plan is_caps (some style) (some value) =
    let on = not (value == 0) in
    let raw =
      if is_caps then make_caps_lock_light_command on style else make_mute_light_command on style in
    if ltb 1 value
    then usage
    else sends (binder_frame raw ∷ []) (wait_effect (byte raw 6) (byte raw 8))

-- The bytes of a raw command, if all parse.
unfoldable pub parse_bytes : Strtoul → List (List ℕ) → Option (List ℕ)
parse_bytes strtoul [] = some []
parse_bytes strtoul (text ∷ texts) =
    let rest = parse_bytes strtoul texts in
    elim (parse_byte strtoul 16 text) [
      | none ↦ none
      | some b ↦ elim rest [ none ↦ none | some bs ↦ some (b ∷ bs) ]
    ]

unfoldable pub raw_plan : Strtoul → List (List ℕ) → Plan
raw_plan strtoul [] = usage
raw_plan strtoul (text ∷ texts) = elim (parse_bytes strtoul (text ∷ texts)) [
  | none ↦ bad_byte
  | some bytes ↦ if valid_raw_command bytes then sends_raw bytes else bad_raw
]

abbrev pub one_argument : List (List ℕ) → Option (List ℕ)
one_argument [] = none
one_argument (a ∷ []) = some a
one_argument (a ∷ b ∷ rest) = none

-- The value of a feature command: one decimal argument.
unfoldable pub feature_value : Strtoul → List (List ℕ) → Option ℕ
feature_value strtoul arguments = elim (one_argument arguments) [
  | none ↦ none
  | some text ↦ parse_byte strtoul 10 text
]

-- caps and mute: a style and a value.
unfoldable pub indicator_arguments : Strtoul → Bool → List (List ℕ) → Plan
indicator_arguments strtoul is_caps [] = usage
indicator_arguments strtoul is_caps (style ∷ rest) =
    indicator_plan is_caps (parse_indicator_style style) (feature_value strtoul rest)

-- The plan of main; the arguments are those behind the program's name.
unfoldable pub plan : Strtoul → List (List ℕ) → Plan
plan strtoul [] = usage
plan strtoul (command ∷ arguments) =
    let argc = length arguments + 2 in
    if bytes_eq command word_status
    then query_plan argc (binder_frame make_pogo_status_query ∷ []) (wait_responses 1 1)
    else if bytes_eq command word_version
    then query_plan argc
        (binder_frame make_keyboard_version_query ∷ binder_frame make_mcu_version_query ∷ [])
        (wait_responses 6 2)
    else if bytes_eq command word_hall
    then query_plan argc (binder_frame make_hall_query ∷ []) (wait_responses 8 1)
    else if bytes_eq command word_identity
    then query_plan argc (binder_frame (make_keyboard_identity_query zero_address) ∷ [])
        (wait_responses 16 1)
    else if bytes_eq command word_gsensor
    then query_plan argc (binder_frame make_gsensor_query ∷ []) (wait_responses 32 1)
    else if bytes_eq command word_touchpad
        || bytes_eq command word_backlight
        || bytes_eq command word_power
    then feature_plan command (feature_value strtoul arguments)
    else if bytes_eq command word_caps || bytes_eq command word_mute
    then indicator_arguments strtoul (bytes_eq command word_caps) arguments
    else if bytes_eq command word_raw
    then raw_plan strtoul arguments
    else usage
