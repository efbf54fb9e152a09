-- ===== src/Keyboard/Reports/Values.antt =====
-- The values that the parsers assemble from bytes.
use android_hardware_xiaomi.Common.{
  ℕ, zero, suc, ◌+◌, ◌-◌, ◌*◌, ◌/◌, ◌%◌, ◌^◌, ◌<◌, ◌≡◌, refl, Bool, true, false, ◌&&◌, not, List,
  some, arith, ltb, ◌==◌, ◌||◌, if◌then◌else◌, bit_and, bit_or,
}
use android_hardware_xiaomi.Common.Bits.{bit_or_shifted, bit_and_mask}
use android_hardware_xiaomi.Common.Int.{pos, negsuc}
use android_hardware_xiaomi.Keyboard.Reports.{
  byte, le16, sign_extend12, StatusReport, status_report, parse_status_report,
}

-- A table of cases, evaluated row by row, and what it says of one row.
module _ (row : ℕ → Bool) where
  table : ℕ → Bool
  table zero = true
  table (suc last) = table last && row last

  table-row : (size : ℕ) → table size ≡ true → (x : ℕ) → x < size → row x ≡ true
  unfolding table
  table-row zero evaluated x inside = elim inside [ ]
  table-row (suc last) evaluated x inside =
      let before = table-row last in ground (arith, before (ground arith) x)

abbrev sign_row : ℕ → Bool
sign_row v =
    if ltb v 2048
    then bit_and v 0x0800 == 0
    else not (bit_and v 0x0800 == 0) && bit_or v 0xf000 == v + 0xf000

sign_table : table sign_row 4096 ≡ true
unfolding table
sign_table = refl

-- Twelve bits read as a two's complement number, whatever the bits above them hold.
pub sign_extend12-signed :
    (value : ℕ)
    → sign_extend12 value
      ≡ (if ltb (value % 4096) 2048 then pos (value % 4096) else negsuc (4095 - value % 4096))
unfolding sign_extend12
sign_extend12-signed value =
    rw (sign_extend12, bit_and_mask 12 value)
      (ground (arith, table-row sign_row 4096 sign_table (value % 4096) (omega arith)))

le16-sum : (lo hi : ℕ) → lo < 256 → le16 lo hi ≡ lo + hi * 256
unfolding le16
le16-sum lo hi h = bit_or_shifted 8 lo hi h

le32-sum :
    (a b c d : ℕ)
    → a < 256
    → b < 256
    → c < 256
    → bit_or (bit_or (bit_or a (b * 2 ^ 8)) (c * 2 ^ 16)) (d * 2 ^ 24)
      ≡ a + b * 256 + c * 65536 + d * 16777216
le32-sum a b c d ha hb hc = rw (
  bit_or_shifted 8 a b (omega arith),
  bit_or_shifted 16 (a + b * 2 ^ 8) c (omega arith),
  bit_or_shifted 24 (a + b * 2 ^ 8 + c * 2 ^ 16) d (omega arith),
)

-- Healthy contacts exclude the pattern of a leather case or a transceiver error.
healthy_row : ℕ → Bool
healthy_row v = not (bit_and v 0x63 == 0x23) || not (bit_and v 0x03 == 0x01)

healthy_table : table healthy_row 256 ≡ true
unfolding table healthy_row
healthy_table = refl

-- What the fields of an accepted status, read from bytes below 256, are: the numbers are the
-- little-endian values of the bytes (so the voltage and the error counts fit their widths), the
-- serial and the power-up count are the low three and the high four bits of byte 17, and a
-- connected keyboard has healthy contacts, no over-current and no leather case or transceiver
-- error.
pub status_report_values :
    (bytes : List ℕ) (r : StatusReport)
    → ((i : ℕ) → byte bytes i < 256)
    → parse_status_report (some bytes) ≡ some r
    → (r.battery_millivolts ≡ byte bytes 10 + byte bytes 11 * 256)
      × (r.uart_errors ≡ byte bytes 12 + byte bytes 13 * 256)
      × (r.ppm_errors
          ≡ byte bytes 14 + byte bytes 15 * 256 + byte bytes 16 * 65536 + byte bytes 17 * 16777216)
      × (r.serial ≡ byte bytes 17 % 8)
      × (r.power_up_count ≡ byte bytes 17 / 16)
      × ((r.connected && (not r.pogo_pin_healthy || r.over_current || r.leather_case_or_trx_error))
          ≡ false)
unfolding parse_status_report status_report healthy_row
status_report_values bytes r small e = ground (
  arith,
  small 17,
  le16-sum (byte bytes 10) (byte bytes 11) (small 10),
  le16-sum (byte bytes 12) (byte bytes 13) (small 12),
  le32-sum (byte bytes 14) (byte bytes 15) (byte bytes 16) (byte bytes 17) (small 14) (small 15)
      (small 16),
  bit_and_mask 3 (byte bytes 17),
  bit_and_mask 4 (byte bytes 17 / 2 ^ 4),
  table-row healthy_row 256 healthy_table (byte bytes 9) (small 9),
)
