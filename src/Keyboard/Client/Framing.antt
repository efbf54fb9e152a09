-- ===== src/Keyboard/Client/Framing.antt =====
-- What the client's two framings mean.
use android_hardware_xiaomi.Common.{
  ℕ, zero, suc, ◌+◌, ◌-◌, ◌*◌, ◌≤◌, ◌<◌, ◌≡◌, refl, ap, false, List, [], ◌∷◌, ◌++◌, length,
  length-append, length-replicate, length-take, take, take_all, drop, replicate, some, ◌==◌, ◌/◌,
  ◌%◌, arith, append-nil,
}
use android_hardware_xiaomi.Keyboard.Frame.{make_command}
use android_hardware_xiaomi.Keyboard.Frame.Layout.{make_command_layout, length-make_command}
use android_hardware_xiaomi.Keyboard.Reports.{byte}
use android_hardware_xiaomi.Keyboard.Client.{
  resize, decode_client_command, wrap_device_payload, to_hex, to_hex_from, hex_digit,
}

length-resize : (bytes : List ℕ) (n : ℕ) → length (resize bytes n) ≡ n
unfolding resize
length-resize bytes n = omega (
  arith,
  length-append (take n bytes) (replicate (n - length bytes) 0),
  length-take n bytes,
  length-replicate {A = ℕ} (n - length bytes) 0,
)

byte-resize : (bytes : List ℕ) (n : ℕ) → 0 < n → byte (resize bytes n) 0 ≡ byte bytes 0
unfolding resize
byte-resize bytes zero h = elim h [ ]
byte-resize [] (suc n) h = zeros (suc n - 0)
  where
    zeros : (k : ℕ) → byte (replicate k 0) 0 ≡ 0
    zeros zero = refl
    zeros (suc k) = refl
byte-resize (b ∷ bytes) (suc n) h = refl

pub resize_exact : (bytes : List ℕ) (n : ℕ) → length bytes ≡ n → resize bytes n ≡ bytes
unfolding resize
resize_exact bytes n h = rw (resize, take_all n bytes (omega arith), zeros) (append-nil bytes)
  where
    zeros : n - length bytes ≡ 0
    zeros = omega arith

byte_behind : (c : List ℕ) → byte (drop 2 c) 0 ≡ byte c 2
byte_behind [] = refl
byte_behind (a ∷ []) = refl
byte_behind (a ∷ b ∷ c) = refl

byte-take : (n : ℕ) (bytes : List ℕ) → 0 < n → byte (take n bytes) 0 ≡ byte bytes 0
byte-take zero bytes h = elim h [ ]
byte-take (suc n) [] h = refl
byte-take (suc n) (b ∷ bytes) h = refl

-- Whatever a client sends, what is passed on to the character device is one 66-byte transfer that
-- begins with the transport report.
pub decode_client_command_transfer :
    (command raw : List ℕ)
    → decode_client_command command ≡ some raw
    → (length raw ≡ 66) × (byte raw 0 ≡ 0x32)
unfolding decode_client_command
decode_client_command_transfer command raw e = ground (
  arith,
  length-resize command 66,
  byte-resize command 66 (omega arith),
  length-resize (take (byte command 1) (drop 2 command)) 66,
  byte-resize (take (byte command 1) (drop 2 command)) 66 (omega arith),
  byte-take (byte command 1) (drop 2 command),
  byte_behind command,
)

-- The two framings of a raw command mean the same: a command of at most 66 bytes that begins with
-- the transport report, and the same command behind 0xaa and its length, are both passed on as
-- that command padded with zeros.
pub decode-wrap_device_payload :
    (raw : List ℕ)
    → length raw ≤ 66
    → byte raw 0 ≡ 0x32
    → (decode_client_command (wrap_device_payload (some raw)) ≡ some (resize raw 66))
      × (decode_client_command raw ≡ some (resize raw 66))
unfolding decode_client_command wrap_device_payload
decode-wrap_device_payload [] fits first = absurd (omega arith)
decode-wrap_device_payload (b ∷ raw) fits first =
    (ground (arith, take_all (suc (length raw)) (b ∷ raw) (omega arith)), ground arith)

-- A command that the service itself builds passes through the client's decoder unchanged.
pub decode-make_command :
    (report protocol target command : ℕ) (payload : List ℕ)
    → length payload ≤ 57
    → decode_client_command (make_command report protocol target command payload)
      ≡ some (make_command report protocol target command payload)
unfolding decode_client_command
decode-make_command report protocol target command payload fits = ground (
  arith,
  size,
  resize_exact (make_command report protocol target command payload) 66 size,
  ap (λ (f : List ℕ). byte f 0)
      (make_command_layout report protocol target command payload (57 - length payload)
        (omega arith)),
)
  where
    size : length (make_command report protocol target command payload) ≡ 66
    size = length-make_command report protocol target command payload

length-to_hex_from :
    (bs output : List ℕ)
    → 0 < length output
    → length (to_hex_from output bs) ≡ length output + 3 * length bs
unfolding to_hex_from
length-to_hex_from [] output h = omega arith
length-to_hex_from (b ∷ bs) output h =
    rw nonempty (omega (arith, length-to_hex_from bs next (omega (arith, longer)), longer))
  where
    nonempty : (length output == 0) ≡ false
    nonempty = ground arith

    next : List ℕ
    next = (output ++ b' ' ∷ []) ++ hex_digit (b / 16) ∷ hex_digit (b % 16) ∷ []

    longer : length next ≡ length output + 3
    longer = omega (
      arith,
      length-append output (b' ' ∷ []),
      length-append (output ++ b' ' ∷ []) (hex_digit (b / 16) ∷ hex_digit (b % 16) ∷ []),
    )

-- The dump of a buffer takes two digits for each byte and a space between two bytes, so that it
-- stays below the three characters for each byte that toHex reserves.
pub length-to_hex :
    (b : ℕ) (bs : List ℕ) → length (to_hex (some (b ∷ bs))) + 1 ≡ 3 * length (b ∷ bs)
unfolding to_hex to_hex_from
length-to_hex b bs =
    omega
      (arith, length-to_hex_from bs (hex_digit (b / 16) ∷ hex_digit (b % 16) ∷ []) (omega arith))
