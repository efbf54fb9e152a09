-- ===== src/Examples/Clients.antt =====
-- aidl/keyboard/keyboard_client.cpp: a command line, raw bytes and a status report.
use android_hardware_xiaomi.Common.{
  refl, ℕ, ◌+◌, ◌-◌, ◌*◌, ◌≡◌, true, false, List, [], ◌∷◌, some, is_some, length, arith, ◌==◌,
}
use android_hardware_xiaomi.Keyboard.Client.{decode_client_command, wrap_device_payload}
use android_hardware_xiaomi.Keyboard.Reports.Exclusive.{status}
use android_hardware_xiaomi.Keyboard.Cli.{Strtoul, plan, valid_raw_command}
use android_hardware_xiaomi.Keyboard.Cli.Callback.{print_frame}
use android_hardware_xiaomi.Keyboard.Cli.Words.{word_backlight}
use android_hardware_xiaomi.Keyboard.Device.{Device}
use android_hardware_xiaomi.Keyboard.Nanoapp.{Nanoapp}
use android_hardware_xiaomi.Keyboard.Cli.Delivery.{PlanTransferred, plan-PlanTransferred}
use android_hardware_xiaomi.Keyboard.Cli.Commands.{valid_raw_command-decode}
use android_hardware_xiaomi.Keyboard.Cli.Responses.{print_frame-wrap_device_payload}
use android_hardware_xiaomi.Examples.Frames.{status_bytes, status_accepted}

abbrev digits : ℕ → ℕ → List ℕ → ℕ
digits base n [] = n
digits base n (d ∷ ds) = digits base (n * base + (d - b'0')) ds

-- strtoul on decimal digits.
abbrev strtoul : Strtoul
strtoul base text = record {
  has_errno = false;
  nothing_consumed = length text == 0;
  ends = true;
  value = digits base 0 text;
}

abbrev half_backlight : List (List ℕ)
half_backlight = word_backlight ∷ (b'5' ∷ b'0' ∷ []) ∷ []

abbrev open_device : Device
open_device = record { fd = some 7; stop_pipe = true; started = true; stopping = false }

abbrev app : Nanoapp
app = record { callback = some 3 }

plan-PlanTransferred_example : PlanTransferred open_device app (plan strtoul half_backlight)
plan-PlanTransferred_example = plan-PlanTransferred open_device app refl refl strtoul half_backlight

abbrev framed : List ℕ
framed = 0xaa ∷ 3 ∷ 0x32 ∷ 1 ∷ 2 ∷ []

valid_raw_command-decode_example : valid_raw_command framed ≡ is_some (decode_client_command framed)
valid_raw_command-decode_example = valid_raw_command-decode framed

abbrev status_tail : List ℕ
status_tail =
    0x31 ∷ 0x38 ∷ 0x80 ∷ 0xa2 ∷ 13 ∷ 0 ∷ 0 ∷ 0 ∷ 0x23 ∷ 0x10 ∷ 0x0e ∷ 1 ∷ 0 ∷ 2 ∷ 0 ∷ 0 ∷ 0x15 ∷ 0
    ∷ 21 ∷ []

print_frame-wrap_device_payload_example : print_frame (wrap_device_payload (some status_bytes)) ≡ 1
print_frame-wrap_device_payload_example =
    print_frame-wrap_device_payload status 0x24 status_tail (omega arith) status_accepted
