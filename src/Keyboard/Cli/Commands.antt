-- ===== src/Keyboard/Cli/Commands.antt =====
-- What the client sends, and what the service makes of it.
use android_hardware_xiaomi.Common.{
  is_some, bytes_eq, ℕ, ◌+◌, ◌≤◌, ◌≡◌, refl, Bool, true, false, ◌||◌, List, [], ◌∷◌, length, Option,
  none, some, arith, ltb, ◌==◌, if◌then◌else◌, Bool-cases, inl, inr, drop, if_intro, ap, sym, ◌∙◌,
  ◌-◌,
}
use android_hardware_xiaomi.Keyboard.Reports.{byte}
use android_hardware_xiaomi.Keyboard.Client.{decode_client_command, wrap_device_payload}
use android_hardware_xiaomi.Keyboard.Client.Framing.{decode-wrap_device_payload, resize_exact}
use android_hardware_xiaomi.Keyboard.Frame.{
  make_command, keyboard_address, protocol_version, short_report, IndicatorStyle, legacy, xm2022,
  make_feature_command, make_caps_lock_light_command, make_mute_light_command,
  make_pogo_status_query, make_keyboard_version_query, make_mcu_version_query, make_hall_query,
  make_keyboard_identity_query, make_gsensor_query,
}
use android_hardware_xiaomi.Keyboard.Frame.Layout.{make_command_layout, length-make_command}
use android_hardware_xiaomi.Keyboard.Cli.{
  binder_frame, valid_raw_command, Plan, usage, bad_byte, bad_raw, sends, sends_raw, query_plan,
  feature_plan, indicator_plan, zero_address, indicator_arguments, Strtoul, parse_bytes, raw_plan,
  plan, feature_value,
}
use android_hardware_xiaomi.Keyboard.Cli.Callback.{Wait, wait_responses}
use android_hardware_xiaomi.Keyboard.Cli.Words.{
  word_status, word_version, word_hall, word_identity, word_gsensor, word_touchpad, word_backlight,
  word_power, word_caps, word_mute, word_raw,
}

-- The client's test of raw bytes accepts just the bytes that the service's decoder accepts.
pub valid_raw_command-decode :
    (bytes : List ℕ) → valid_raw_command bytes ≡ is_some (decode_client_command bytes)
unfolding valid_raw_command decode_client_command
valid_raw_command-decode [] = refl
valid_raw_command-decode (b ∷ bytes) = ground arith

-- A frame that the service passes on as what stands behind the two framing bytes.
abbrev pub Decodes : List (List ℕ) → Type 0
Decodes [] = Unit
Decodes (f ∷ fs) = (decode_client_command f ≡ some (drop 2 f)) × Decodes fs

unfoldable pub PlanDecodes : Plan → Type 0
PlanDecodes usage = Unit
PlanDecodes bad_byte = Unit
PlanDecodes bad_raw = Unit
PlanDecodes (sends frames wait) = Decodes frames
PlanDecodes (sends_raw bytes) = is_some (decode_client_command bytes) ≡ true

-- A whole command, framed by the client, is decoded to itself.
pub decode-binder_frame :
    (raw : List ℕ)
    → length raw ≡ 66
    → byte raw 0 ≡ 0x32
    → decode_client_command (binder_frame raw) ≡ some raw
unfolding binder_frame wrap_device_payload
decode-binder_frame raw size first =
    let both = (decode-wrap_device_payload raw (omega (arith, size)) first).0 in
    let same = resize_exact raw 66 size in ground arith

-- A command of the service.
made :
    (report protocol target command : ℕ) (payload : List ℕ)
    → length payload ≤ 57
    → decode_client_command (binder_frame (make_command report protocol target command payload))
      ≡ some (make_command report protocol target command payload)
made report protocol target command payload fits =
    decode-binder_frame (make_command report protocol target command payload)
      (length-make_command report protocol target command payload)
      (ap (λ (f : List ℕ). byte f 0)
        (make_command_layout report protocol target command payload (57 - length payload)
          (omega arith)))

usage-PlanDecodes : PlanDecodes usage
unfolding PlanDecodes
usage-PlanDecodes = tt

query_plan-PlanDecodes :
    (argc : ℕ) (frames : List (List ℕ)) (wait : Wait)
    → Decodes frames
    → PlanDecodes (query_plan argc frames wait)
unfolding PlanDecodes query_plan
query_plan-PlanDecodes argc frames wait d = if_intro PlanDecodes (argc == 2) _ _ d tt

feature-Decodes :
    (command value : ℕ) → Decodes (binder_frame (make_feature_command command value) ∷ [])
unfolding make_feature_command binder_frame make_command
feature-Decodes command value =
    (made short_report protocol_version keyboard_address command (value ∷ []) (omega arith), tt)

feature_sends :
    (refused : Bool) (command value : ℕ) (wait : Wait)
    → PlanDecodes (
        if refused
        then usage
        else sends (binder_frame (make_feature_command command value) ∷ []) wait)
unfolding PlanDecodes
feature_sends true command value wait = tt
feature_sends false command value wait = feature-Decodes command value

feature_plan-PlanDecodes :
    (command : List ℕ) (value : Option ℕ) → PlanDecodes (feature_plan command value)
unfolding feature_plan
feature_plan-PlanDecodes command none = usage-PlanDecodes
feature_plan-PlanDecodes command (some value) = feature_sends _ _ value _

indicator_plan-PlanDecodes :
    (is_caps : Bool) (style : Option IndicatorStyle) (value : Option ℕ)
    → PlanDecodes (indicator_plan is_caps style value)
unfolding PlanDecodes indicator_plan binder_frame make_caps_lock_light_command
    make_mute_light_command
indicator_plan-PlanDecodes is_caps none value = tt
indicator_plan-PlanDecodes is_caps (some style) none = tt
indicator_plan-PlanDecodes true (some legacy) (some value) =
    if_intro PlanDecodes (ltb 1 value) _ _ tt (feature-Decodes 0x2e _)
indicator_plan-PlanDecodes true (some xm2022) (some value) =
    if_intro PlanDecodes (ltb 1 value) _ _ tt (feature-Decodes 0x26 _)
indicator_plan-PlanDecodes false (some legacy) (some value) =
    if_intro PlanDecodes (ltb 1 value) _ _ tt (feature-Decodes 0x2e _)
indicator_plan-PlanDecodes false (some xm2022) (some value) =
    if_intro PlanDecodes (ltb 1 value) _ _ tt (feature-Decodes 0x26 _)

indicator_arguments-PlanDecodes :
    (strtoul : Strtoul) (is_caps : Bool) (arguments : List (List ℕ))
    → PlanDecodes (indicator_arguments strtoul is_caps arguments)
unfolding indicator_arguments
indicator_arguments-PlanDecodes strtoul is_caps [] = usage-PlanDecodes
indicator_arguments-PlanDecodes strtoul is_caps (style ∷ rest) = indicator_plan-PlanDecodes _ _ _

raw_checked :
    (bytes : List ℕ) → PlanDecodes (if valid_raw_command bytes then sends_raw bytes else bad_raw)
unfolding PlanDecodes
raw_checked bytes = elim (Bool-cases (valid_raw_command bytes)) [
  | inl ok ↦ rw ok (sym (valid_raw_command-decode bytes) ∙ ok)
  | inr refused ↦ rw refused tt
]

raw_plan-PlanDecodes :
    (strtoul : Strtoul) (texts : List (List ℕ)) → PlanDecodes (raw_plan strtoul texts)
unfolding PlanDecodes raw_plan
raw_plan-PlanDecodes strtoul [] = tt
raw_plan-PlanDecodes strtoul (text ∷ texts) =
    elim (parse_bytes strtoul (text ∷ texts))
      as (λ r. PlanDecodes (elim r as (λ x. Plan) [
        | none ↦ bad_byte
        | some bytes ↦ if valid_raw_command bytes then sends_raw bytes else bad_raw
      ])) [ none ↦ tt | some bytes ↦ raw_checked bytes ]

status_decodes :
    decode_client_command (binder_frame make_pogo_status_query) ≡ some make_pogo_status_query
unfolding make_pogo_status_query
status_decodes = made _ _ _ _ _ (omega arith)

version_decodes :
    decode_client_command (binder_frame make_keyboard_version_query)
    ≡ some make_keyboard_version_query
unfolding make_keyboard_version_query
version_decodes = made _ _ _ _ _ (omega arith)

mcu_version_decodes :
    decode_client_command (binder_frame make_mcu_version_query) ≡ some make_mcu_version_query
unfolding make_mcu_version_query
mcu_version_decodes = made _ _ _ _ _ (omega arith)

hall_decodes : decode_client_command (binder_frame make_hall_query) ≡ some make_hall_query
unfolding make_hall_query
hall_decodes = decode-binder_frame make_hall_query refl refl

identity_decodes :
    decode_client_command (binder_frame (make_keyboard_identity_query zero_address))
    ≡ some (make_keyboard_identity_query zero_address)
unfolding make_keyboard_identity_query
identity_decodes = made _ _ _ _ _ (omega arith)

gsensor_decodes : decode_client_command (binder_frame make_gsensor_query) ≡ some make_gsensor_query
unfolding make_gsensor_query
gsensor_decodes = made _ _ _ _ _ (omega arith)

-- Whatever the command line, the service's decoder accepts all that the client sends: a command that
-- the client builds is passed on to the device as the client built it, without its two framing
-- bytes, and raw bytes are not refused.
pub plan-PlanDecodes :
    (strtoul : Strtoul) (arguments : List (List ℕ)) → PlanDecodes (plan strtoul arguments)
unfolding plan binder_frame
plan-PlanDecodes strtoul [] = usage-PlanDecodes
plan-PlanDecodes strtoul (command ∷ arguments) =
    let argc = length arguments + 2 in
    let is_caps = bytes_eq command word_caps in
    let is_feature =
      bytes_eq command word_touchpad
      || bytes_eq command word_backlight
      || bytes_eq command word_power in
    let version_frames =
      binder_frame make_keyboard_version_query ∷ binder_frame make_mcu_version_query ∷ [] in
    let identity_frames = binder_frame (make_keyboard_identity_query zero_address) ∷ [] in
    let status =
      query_plan-PlanDecodes argc (binder_frame make_pogo_status_query ∷ []) (wait_responses 1 1)
        (status_decodes, tt) in
    let version =
      query_plan-PlanDecodes argc version_frames (wait_responses 6 2)
        (version_decodes, (mcu_version_decodes, tt)) in
    let hall =
      query_plan-PlanDecodes argc (binder_frame make_hall_query ∷ []) (wait_responses 8 1)
        (hall_decodes, tt) in
    let identity =
      query_plan-PlanDecodes argc identity_frames (wait_responses 16 1) (identity_decodes, tt) in
    let gsensor =
      query_plan-PlanDecodes argc (binder_frame make_gsensor_query ∷ []) (wait_responses 32 1)
        (gsensor_decodes, tt) in
    let feature = feature_plan-PlanDecodes command (feature_value strtoul arguments) in
    if_intro PlanDecodes (bytes_eq command word_status) _ _ status (
      if_intro PlanDecodes (bytes_eq command word_version) _ _ version (
        if_intro PlanDecodes (bytes_eq command word_hall) _ _ hall (
          if_intro PlanDecodes (bytes_eq command word_identity) _ _ identity (
            if_intro PlanDecodes (bytes_eq command word_gsensor) _ _ gsensor (
              if_intro PlanDecodes is_feature _ _ feature (
                if_intro PlanDecodes (is_caps || bytes_eq command word_mute) _ _
                  (indicator_arguments-PlanDecodes strtoul is_caps arguments)
                  (if_intro PlanDecodes (bytes_eq command word_raw) _ _
                    (raw_plan-PlanDecodes strtoul arguments) usage-PlanDecodes)))))))
