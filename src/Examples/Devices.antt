-- ===== src/Examples/Devices.antt =====
-- aidl/keyboard/NanoappDevice.cpp, KeyboardNanoapp.cpp and the client's framing at concrete commands.
use android_hardware_xiaomi.Common.{
  ℕ, ◌≡◌, refl, true, false, List, [], ◌∷◌, replicate, some, arith,
}
use android_hardware_xiaomi.Keyboard.Client.{resize, decode_client_command, wrap_device_payload}
use android_hardware_xiaomi.Keyboard.Client.Framing.{decode-wrap_device_payload}
use android_hardware_xiaomi.Keyboard.Device.{Device}
use android_hardware_xiaomi.Keyboard.Nanoapp.{Nanoapp}

abbrev raw : List ℕ
raw = 0x32 ∷ 0 ∷ 0x4e ∷ []

abbrev transfer : List ℕ
transfer = 0x32 ∷ replicate 65 0

abbrev open_device : Device
open_device = record { fd = some 7; stop_pipe = true; started = true; stopping = false }

raw_decoded : decode_client_command raw ≡ some (resize raw 66)
unfolding decode_client_command
raw_decoded = refl

decode-wrap_device_payload_example :
    (decode_client_command (wrap_device_payload (some raw)) ≡ some (resize raw 66))
    × (decode_client_command raw ≡ some (resize raw 66))
decode-wrap_device_payload_example = decode-wrap_device_payload raw (omega arith) refl

abbrev app : Nanoapp
app = record { callback = some 3 }
