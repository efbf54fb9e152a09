-- ===== src/Common/Words.antt =====
-- Bit sets in arrays of 64-bit words, as the evdev ioctls fill them; a word beyond the array is not
-- read by the code and reads as 0 here.
use Prim.Native.Nat.{ℕ, ◌/◌, ◌%◌, ◌^◌, bit_and}
use mathlib.Core.Bool.{Bool, not}
use mathlib.Core.List.{List}
use android_hardware_xiaomi.Common.Tests.{◌==◌}
use android_hardware_xiaomi.Common.Lists.{get_or}

unfoldable pub test_bit : List ℕ → ℕ → Bool
test_bit words bit = not (bit_and (get_or words (bit / 64) 0) (2 ^ (bit % 64)) == 0)

-- linux/input-event-codes.h.
abbrev pub ev_sw : ℕ
ev_sw = 0x05

abbrev pub sw_lid : ℕ
sw_lid = 0x00

abbrev pub sw_tablet_mode : ℕ
sw_tablet_mode = 0x01
