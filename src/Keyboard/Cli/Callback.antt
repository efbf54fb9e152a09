-- ===== src/Keyboard/Cli/Callback.antt =====
-- aidl/keyboard/keyboard_client.cpp, ClientCallback: what the client makes of the frames and
-- errors that the service sends, and how long it waits for them.
use android_hardware_xiaomi.Common.{
  ℕ, ◌+◌, Bool, true, false, ◌&&◌, ◌||◌, not, List, [], ◌∷◌, ◌++◌, length, take, drop, Option, none,
  some, ltb, leb, ◌==◌, if◌then◌else◌, bit_and, bit_or,
}
use android_hardware_xiaomi.Common.Int.{ℤ, is_zero_ℤ}
use android_hardware_xiaomi.Keyboard.Reports.{
  byte, parse_feature_effect_report, parse_command_ack_report,
}
use android_hardware_xiaomi.Keyboard.Reports.Exclusive.{
  ReportKind, status, keyboard_version, mcu_version, hall, identity, gsensor, sleep, feature, ack,
  accepts,
}

-- The payload of a frame that the service sends.
unfoldable pub payload_of : List ℕ → Option (List ℕ)
payload_of frame =
    if ltb (length frame) 3 || not (byte frame 0 == 0xaa) || ltb (length frame) (byte frame 1 + 2)
    then none
    else some (take (byte frame 1) (drop 2 frame))

-- The bit of a kind of report; an effect and an acknowledgement have none.
abbrev pub response_bit : ReportKind → ℕ
response_bit status = 1
response_bit keyboard_version = 2
response_bit mcu_version = 4
response_bit hall = 8
response_bit identity = 16
response_bit gsensor = 32
response_bit sleep = 64
response_bit feature = 0
response_bit ack = 0

-- The parsers of printFrame, in its order.
abbrev pub print_order : List ReportKind
print_order =
    status ∷ keyboard_version ∷ mcu_version ∷ hall ∷ identity ∷ gsensor ∷ sleep ∷ feature ∷ ack ∷ []

unfoldable pub first_kind : List ReportKind → List ℕ → Option ReportKind
first_kind [] payload = none
first_kind (k ∷ kinds) payload =
    if accepts k (some payload) then some k else first_kind kinds payload

-- printFrame, its result.
unfoldable pub print_frame : List ℕ → ℕ
unfolding payload_of first_kind
print_frame frame = elim (payload_of frame) [
  | none ↦ 0
  | some payload ↦ elim (first_kind print_order payload) [ none ↦ 0 | some k ↦ response_bit k ]
]

pub record ClientCallback : Type 0 where
  pub frames : List (List ℕ)
  pub seen_responses : ℕ
  pub last_error : ℤ

-- A call of the callback.
pub data Delivery : Type 0 where
  data_receive : List ℕ → Delivery
  error_receive : ℤ → Delivery

unfoldable pub receive : Delivery → ClientCallback → ClientCallback
unfolding print_frame
receive (data_receive buf) c = record c {
  frames = c.frames ++ buf ∷ [];
  seen_responses = bit_or c.seen_responses (print_frame buf);
}
receive (error_receive code) c = record c { last_error = code }

unfoldable pub is_complete : ℕ → ℕ → ClientCallback → Bool
is_complete required fallback c =
    if not (required == 0)
    then bit_and c.seen_responses required == required
    else leb fallback (length c.frames)

-- waitForResponses, over the deliveries that arrive before the timeout.
unfoldable pub wait_for_responses : ℕ → ℕ → List Delivery → ClientCallback → Bool
unfolding is_complete receive
wait_for_responses required fallback [] c =
    is_complete required fallback c && is_zero_ℤ c.last_error
wait_for_responses required fallback (d ∷ deliveries) c =
    let rest = wait_for_responses required fallback deliveries (receive d c) in
    if is_complete required fallback c || not (is_zero_ℤ c.last_error)
    then is_zero_ℤ c.last_error
    else rest

-- The verdict of one frame on a feature command: none, success or refusal.
unfoldable pub frame_verdict : ℕ → ℕ → List ℕ → Option Bool
unfolding payload_of
frame_verdict command value frame = elim (payload_of frame) [
  | none ↦ none
  | some payload ↦
      let effect : Option Bool = elim (parse_feature_effect_report (some payload)) [
        | none ↦ none
        | some e ↦ if e.command == command && e.value == value then some true else none
      ] in
      elim (parse_command_ack_report (some payload)) [
        | none ↦ effect
        | some a ↦ if a.command == command then some (a.status == 0) else effect
      ]
]

-- The first verdict decides.
unfoldable pub feature_result : ℕ → ℕ → List (List ℕ) → Option Bool
feature_result command value [] = none
feature_result command value (frame ∷ frames) = elim (frame_verdict command value frame) [
  | none ↦ feature_result command value frames
  | some verdict ↦ some verdict
]

-- waitForFeatureResult, over the deliveries that arrive before the timeout.
unfoldable pub wait_for_feature_result : ℕ → ℕ → List Delivery → ClientCallback → Bool
unfolding feature_result receive
wait_for_feature_result command value [] c =
    is_zero_ℤ c.last_error
    && elim (feature_result command value c.frames) [ none ↦ false | some verdict ↦ verdict ]
wait_for_feature_result command value (d ∷ deliveries) c =
    let rest = wait_for_feature_result command value deliveries (receive d c) in
    if not (is_zero_ℤ c.last_error)
    then false
    else elim (feature_result command value c.frames) [ none ↦ rest | some verdict ↦ verdict ]

-- What the client waits for: nothing, the effect of a command with its value, or reports.
pub data Wait : Type 0 where
  no_wait : Wait
  wait_effect : ℕ → ℕ → Wait
  wait_responses : ℕ → ℕ → Wait

-- The end of main: whether it succeeds, by whether all was sent, the wait and the deliveries.
unfoldable pub succeeds : Bool → Wait → List Delivery → ClientCallback → Bool
unfolding wait_for_feature_result wait_for_responses
succeeds sent no_wait deliveries c = sent
succeeds sent (wait_effect command value) deliveries c =
    sent && wait_for_feature_result command value deliveries c
succeeds sent (wait_responses required fallback) deliveries c =
    sent && wait_for_responses required fallback deliveries c
