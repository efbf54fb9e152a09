-- ===== src/Keyboard/Frame/Layout.antt =====
-- The bytes of a command frame, and the checks that it passes.
use android_hardware_xiaomi.Common.{
  ℕ, suc, ◌+◌, ◌-◌, ◌%◌, ◌≤◌, ◌<◌, ◌≡◌, refl, ap, ◌∙◌, true, false, List, [], ◌∷◌, ◌++◌, length,
  length-append, length-set, set, take, drop, replicate, get_or, append_assoc, arith, ltb,
  Bool-cases, inl, inr,
}
use mathlib.Core.Path.{subst₂}
use native.Mathlib.Nat.{zero-add, suc-add}
use android_hardware_xiaomi.Keyboard.Frame.{
  checksum_from, checksum, write_at, make_command, has_valid_checksum, transport_report,
  pad_address,
}

-- Writing at the end of a prefix replaces the zeros that follow it.
set_after : (pre rest : List ℕ) (z v : ℕ) → set (pre ++ z ∷ rest) (length pre) v ≡ pre ++ v ∷ rest
set_after [] rest z v = refl
set_after (x ∷ pre) rest z v = rw (set_after pre rest z v)

take_prefix : (xs ys : List ℕ) → take (length xs) (xs ++ ys) ≡ xs
take_prefix [] ys = refl
take_prefix (x ∷ xs) ys = rw (take_prefix xs ys)

get_after : (xs ys : List ℕ) (v d : ℕ) → get_or (xs ++ v ∷ ys) (length xs) d ≡ v
get_after [] ys v d = refl
get_after (x ∷ xs) ys v d = get_after xs ys v d

length_snoc : (xs : List ℕ) (x : ℕ) → length (xs ++ x ∷ []) ≡ suc (length xs)
length_snoc [] x = refl
length_snoc (y ∷ xs) x = rw (length_snoc xs x)

write_at-zeros :
    (bs pre : List ℕ) (m : ℕ)
    → write_at (pre ++ replicate (length bs + m) 0) (length pre) bs ≡ pre ++ (bs ++ replicate m 0)
unfolding write_at
write_at-zeros [] pre m = rw zero-add
write_at-zeros (b ∷ bs) pre m =
    rw (suc-add (length bs) m, set_after pre (replicate (length bs + m) 0) 0 b)
      (simp (append_assoc, length_snoc) at (write_at-zeros bs (pre ++ b ∷ []) m))

set_behind :
    (front payload rest : List ℕ) (z v : ℕ)
    → set (front ++ (payload ++ z ∷ rest)) (length front + length payload) v
      ≡ front ++ (payload ++ v ∷ rest)
set_behind [] payload rest z v = rw zero-add (set_after payload rest z v)
set_behind (x ∷ front) payload rest z v =
    rw (suc-add (length front) (length payload), set_behind front payload rest z v)

-- The header of a command, its length byte included.
abbrev header : ℕ → ℕ → ℕ → ℕ → ℕ → List ℕ
header report protocol target command n =
    transport_report ∷ 0 ∷ report ∷ protocol ∷ pad_address ∷ target ∷ command ∷ n ∷ []

-- The bytes that the checksum covers: all behind the transport report and the zero.
abbrev pub covered : ℕ → ℕ → ℕ → ℕ → List ℕ → List ℕ
covered report protocol target command payload =
    report ∷ protocol ∷ pad_address ∷ target ∷ command ∷ length payload ∷ payload

-- The payload copied behind the header, into the zeros.
body_written :
    (front payload : List ℕ) (pad : ℕ)
    → length payload + suc pad ≡ 58
    → length front ≡ 8
    → write_at (front ++ replicate 58 0) 8 payload ≡ front ++ (payload ++ 0 ∷ replicate pad 0)
body_written front payload pad fits eight =
    subst₂
      (λ n k.
        write_at (front ++ replicate n 0) k payload ≡ front ++ (payload ++ 0 ∷ replicate pad 0))
      fits eight (write_at-zeros payload front (suc pad))

-- A payload of at most 57 bytes makes the transport report and a zero, then the covered bytes (the
-- header with the length of the payload, and the payload), then the checksum of just these, and
-- zeros up to 57 bytes of payload and padding.
pub make_command_layout :
    (report protocol target command : ℕ) (payload : List ℕ) (pad : ℕ)
    → length payload + pad ≡ 57
    → make_command report protocol target command payload
      ≡ transport_report
        ∷ 0
        ∷ (covered report protocol target command payload
            ++ checksum (covered report protocol target command payload) ∷ replicate pad 0)
unfolding make_command
make_command_layout report protocol target command payload pad fits = rw (
  make_command,
  in_range,
  small,
  body_written (header report protocol target command (length payload)) payload pad more refl,
  window,
  take_prefix (covered report protocol target command payload) (0 ∷ replicate pad 0),
  set_behind (header report protocol target command (length payload)) payload (replicate pad 0) 0
      (checksum (covered report protocol target command payload)),
)
  where
    in_range : ltb 57 (length payload) ≡ false
    in_range = ground arith

    small : length payload % 256 ≡ length payload
    small = omega arith

    more : length payload + suc pad ≡ 58
    more = omega arith

    window : 8 + length payload - 2 ≡ length (covered report protocol target command payload)
    window = omega arith

length-write_at : (bs frame : List ℕ) (i : ℕ) → length (write_at frame i bs) ≡ length frame
unfolding write_at
length-write_at [] frame i = refl
length-write_at (b ∷ bs) frame i = length-write_at bs (set frame i b) (suc i) ∙ length-set frame i b

-- Every command, also one whose payload is too long to fit, is one 66-byte transfer, which is what
-- NanoappDevice::writeCommand and the character device accept.
pub length-make_command :
    (report protocol target command : ℕ) (payload : List ℕ)
    → length (make_command report protocol target command payload) ≡ 66
unfolding make_command
length-make_command report protocol target command payload =
    elim (Bool-cases (ltb 57 (length payload))) [
      | inl over ↦ rw (make_command, over)
      | inr fits ↦ rw (make_command, fits, length-set, length-write_at)
    ]

-- Bytes whose sixth gives the length of what follows it, with their checksum behind them, pass.
pub framed-has_valid_checksum :
    (bytes rest : List ℕ)
    → 6 + get_or (bytes ++ checksum bytes ∷ rest) 5 0 ≡ length bytes
    → has_valid_checksum (bytes ++ checksum bytes ∷ rest) ≡ true
unfolding has_valid_checksum
framed-has_valid_checksum bytes rest e =
    rw (has_valid_checksum, e, take_prefix bytes _, get_after bytes rest (checksum bytes) 0)
      (ground (arith, length-append bytes (checksum bytes ∷ rest)))

-- A payload of at most 57 bytes makes a frame whose bytes behind the transport header pass the
-- checksum test that the service applies to the frames that it receives.
pub make_command-has_valid_checksum :
    (report protocol target command : ℕ) (payload : List ℕ)
    → length payload ≤ 57
    → has_valid_checksum (drop 2 (make_command report protocol target command payload)) ≡ true
make_command-has_valid_checksum report protocol target command payload fits =
    rw
      (make_command_layout report protocol target command payload (57 - length payload)
        (omega arith))
      (framed-has_valid_checksum (covered report protocol target command payload)
        (replicate (57 - length payload) 0) (omega arith))

abbrev total : List ℕ → ℕ
total [] = 0
total (b ∷ bs) = b + total bs

total-append : (xs ys : List ℕ) → total (xs ++ ys) ≡ total xs + total ys
total-append [] ys = omega arith
total-append (x ∷ xs) ys = omega (arith, total-append xs ys)

checksum_from-total : (v : ℕ) (bs : List ℕ) → checksum_from v bs % 256 ≡ (v + total bs) % 256
unfolding checksum_from
checksum_from-total v [] = omega arith
checksum_from-total v (b ∷ bs) = omega (arith, checksum_from-total ((v + b) % 256) bs)

-- Two byte strings that differ in exactly one byte have different checksums: a single corrupted
-- byte of a frame never goes unnoticed.
pub checksum_one_byte :
    (front back : List ℕ) (a b : ℕ)
    → a < 256
    → b < 256
    → checksum (front ++ a ∷ back) ≡ checksum (front ++ b ∷ back)
    → a ≡ b
unfolding checksum
checksum_one_byte front back a b ha hb e = omega (
  arith,
  ap (λ (t : ℕ). t % 256) e,
  checksum_from-total 0 (front ++ a ∷ back),
  checksum_from-total 0 (front ++ b ∷ back),
  total-append front (a ∷ back),
  total-append front (b ∷ back),
)
