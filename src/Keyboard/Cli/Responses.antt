-- ===== src/Keyboard/Cli/Responses.antt =====
-- Which reports the client recognizes, and how long it waits for them.
use android_hardware_xiaomi.Common.{
  ℕ, suc, length, take_all, ◌≤◌, ◌≡◌, ◌⊎◌, inl, inr, true, List, [], ◌∷◌, some, arith, Bool-cases,
}
use android_hardware_xiaomi.Keyboard.Reports.Exclusive.{
  ReportKind, status, keyboard_version, mcu_version, hall, identity, gsensor, sleep, feature, ack,
  accepts, accepts_exclusive,
}
use android_hardware_xiaomi.Keyboard.Client.{wrap_device_payload}
use android_hardware_xiaomi.Keyboard.Cli.Callback.{
  first_kind, print_order, response_bit, print_frame, payload_of,
}

abbrev pub Among : ReportKind → List ReportKind → Type 0
Among k [] = ⊥
Among k (j ∷ kinds) = (j ≡ k) ⊎ Among k kinds

first_kind-accepts :
    (k : ReportKind) (kinds : List ReportKind) (payload : List ℕ)
    → Among k kinds
    → accepts k (some payload) ≡ true
    → first_kind kinds payload ≡ some k
unfolding first_kind
first_kind-accepts k [] payload m a = absurd m
first_kind-accepts k (j ∷ kinds) payload (inl e) a =
    let yes : accepts j (some payload) ≡ true = cc in rw (yes, e)
first_kind-accepts k (j ∷ kinds) payload (inr rest) a =
    let later = first_kind-accepts k kinds payload rest a in
    elim (Bool-cases (accepts j (some payload))) [
      | inl first ↦ rw (first, accepts_exclusive j k (some payload) first a)
      | inr other ↦ rw (other, later)
    ]

all_printed : (k : ReportKind) → Among k print_order
all_printed status = ground arith
all_printed keyboard_version = ground arith
all_printed mcu_version = ground arith
all_printed hall = ground arith
all_printed identity = ground arith
all_printed gsensor = ground arith
all_printed sleep = ground arith
all_printed feature = ground arith
all_printed ack = ground arith

-- A payload of at most 128 bytes, as the reader of the device delivers it, comes out of the frame
-- that the service sends as it went in.
pub payload_of-wrap_device_payload :
    (b : ℕ) (bytes : List ℕ)
    → length (b ∷ bytes) ≤ 128
    → payload_of (wrap_device_payload (some (b ∷ bytes))) ≡ some (b ∷ bytes)
unfolding payload_of wrap_device_payload
payload_of-wrap_device_payload b bytes fits =
    let whole = take_all (suc (length bytes)) (b ∷ bytes) (omega arith) in ground arith

-- The client recognizes every report that the service's parsers accept: the frame of such a payload
-- gives the response bit of its kind, whichever parser comes first.
pub print_frame-wrap_device_payload :
    (k : ReportKind) (b : ℕ) (bytes : List ℕ)
    → length (b ∷ bytes) ≤ 128
    → accepts k (some (b ∷ bytes)) ≡ true
    → print_frame (wrap_device_payload (some (b ∷ bytes))) ≡ response_bit k
unfolding print_frame
print_frame-wrap_device_payload k b bytes fits a = rw (
  print_frame,
  payload_of-wrap_device_payload b bytes fits,
  first_kind-accepts k print_order (b ∷ bytes) (all_printed k) a,
)
