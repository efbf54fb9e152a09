-- ===== src/Keyboard/Client.antt =====
-- aidl/keyboard/Protocol.cpp, the side of the Binder client: the two framings of a command, the
-- framing of a payload from the device, and the hexadecimal dump.
pub mod Framing
use android_hardware_xiaomi.Common.{
  ℕ, ◌+◌, ◌-◌, ◌/◌, ◌%◌, Bool, ◌&&◌, ◌||◌, not, List, [], ◌∷◌, ◌++◌, length, take, drop, replicate,
  Option, none, some, ltb, leb, ◌==◌, if◌then◌else◌,
}
use android_hardware_xiaomi.Keyboard.Frame.{raw_frame_size, max_payload_size, transport_report}
use android_hardware_xiaomi.Keyboard.Reports.{Buffer, byte}

-- std::vector::resize(n, 0).
unfoldable pub resize : List ℕ → ℕ → List ℕ
resize bytes n = take n bytes ++ replicate (n - length bytes) 0

-- The output vector is the result; `none` is the return value false.
unfoldable pub decode_client_command : List ℕ → Option (List ℕ)
decode_client_command command =
    if ltb 0 (length command)
      && leb (length command) raw_frame_size
      && byte command 0 == transport_report
    then some (resize command raw_frame_size)
    else if ltb (length command) 3 || not (byte command 0 == 0xaa)
    then none
    else let n = byte command 1 in
      if n == 0
        || ltb raw_frame_size n
        || not (length command == n + 2)
        || not (byte command 2 == transport_report)
      then none
      else some (resize (take n (drop 2 command)) raw_frame_size)

unfoldable pub wrap_device_payload : Buffer → List ℕ
wrap_device_payload none = []
wrap_device_payload (some payload) =
    if length payload == 0 || ltb max_payload_size (length payload)
    then []
    else 0xaa ∷ length payload % 256 ∷ payload

-- A digit of "%02X".
abbrev hex_digit : ℕ → ℕ
hex_digit d = if ltb d 10 then b'0' + d else b'A' + (d - 10)

-- The loop; the separator stands before each byte but the first.
to_hex_from : List ℕ → List ℕ → List ℕ
to_hex_from output [] = output
to_hex_from output (b ∷ bs) =
    to_hex_from
      ((if length output == 0 then [] else output ++ b' ' ∷ [])
        ++ hex_digit (b / 16) ∷ hex_digit (b % 16) ∷ [])
      bs

unfoldable pub to_hex : Buffer → List ℕ
unfolding to_hex_from
to_hex none = []
to_hex (some bytes) = to_hex_from [] bytes
