-- ===== src/TouchFeature.antt =====
-- hidl/touchfeature/1.0/TouchFeature.cpp: the touch modes of the stock interface over the kernel's
-- compact one. What the kernel answers to a request is an argument. An int32_t is an ℤ; the errno
-- constants are those of Linux.
pub mod Modes
pub mod Events
use android_hardware_xiaomi.Common.{
  ℕ, ◌-◌, Bool, true, false, ◌&&◌, ◌||◌, not, List, [], ◌∷◌, ◌++◌, length, take, set, get_or, map,
  Option, none, some, min, ltb, leb, ◌==◌, if◌then◌else◌,
}
use android_hardware_xiaomi.Common.Int.{ℤ, pos, negsuc, neg, ltb_ℤ, is_zero_ℤ}

abbrev pub einval : ℤ
einval = negsuc 21

pub record ModeValues : Type 0 where
  pub initial : ℤ
  pub default_value : ℤ
  pub min_value : ℤ
  pub max_value : ℤ

abbrev row : ℤ → ℤ → ℤ → ℤ → ModeValues
row i d lo hi = record { initial = i; default_value = d; min_value = lo; max_value = hi }

abbrev pub mode_table : List ModeValues
mode_table =
    row (pos 0) (pos 0) (pos 0) (pos 1)
    ∷ row (pos 0) (pos 0) (pos 0) (pos 1)
    ∷ row (pos 2) (pos 2) (pos 0) (pos 4)
    ∷ row (pos 2) (pos 2) (pos 0) (pos 4)
    ∷ row (pos 2) (pos 2) (pos 0) (pos 4)
    ∷ row (pos 2) (pos 2) (pos 0) (pos 4)
    ∷ row (pos 1) (pos 1) (pos 1) (pos 3)
    ∷ row (pos 0) (pos 2) (pos 0) (pos 3)
    ∷ row (pos 0) (pos 0) (pos 0) (pos 3)
    ∷ row (pos 0) (pos 0) (pos 0) (pos 0)
    ∷ row (pos 0) (pos 0) (pos 0) (pos 0)
    ∷ row (pos 0) (pos 0) (pos 0) (pos 0)
    ∷ row (pos 0) (pos 0) (pos 0) (pos 1)
    ∷ row (pos 0) (pos 0) (pos 0) (pos 0)
    ∷ row (pos 0) (pos 0) (pos 0) (pos 1)
    ∷ row (pos 0) (pos 0) (pos 0) (pos 0)
    ∷ row (pos 0) (pos 0) (pos 0) (pos 0)
    ∷ row (pos 0) (pos 0) (pos 0) (pos 0)
    ∷ row (pos 0) (pos 0) (pos 0) (pos 0)
    ∷ row (pos 0) (pos 0) (pos 0) (pos 0)
    ∷ row (pos 0) (pos 0) (negsuc 0) (pos 18)
    ∷ row (pos 0) (pos 0) (pos 0) (pos 0)
    ∷ row (pos 0) (pos 0) (pos 0) (pos 0)
    ∷ row (pos 0) (pos 0) (pos 0) (pos 0)
    ∷ row (pos 0) (pos 0) (pos 0) (pos 1)
    ∷ []

-- kModeValues[mode]; the array is not read beyond its end.
unfoldable pub values_of : ℕ → ModeValues
values_of mode = get_or mode_table mode (row (pos 0) (pos 0) (pos 0) (pos 0))

-- The table's length is written out, so that a test of a mode does not run through it.
abbrev pub mode_count : ℕ
mode_count = 25

-- The modes that a call may name: touch 0 and an index into the table.
abbrev pub valid_mode : ℤ → ℤ → Option ℕ
valid_mode touch (negsuc n) = none
valid_mode touch (pos n) = if is_zero_ℤ touch && ltb n mode_count then some n else none

-- std::clamp.
abbrev pub clamp : ℤ → ℤ → ℤ → ℤ
clamp v lo hi = if ltb_ℤ v lo then lo else if ltb_ℤ hi v then hi else v

-- What open(2) and ioctl(2) of the device give: an error, or the value in the request afterwards.
pub data Answer : Type 0 where
  failed : ℕ → Answer
  answered : ℤ → Answer

abbrev pub set_status : Answer → ℤ
set_status (failed e) = neg (pos e)
set_status (answered v) = pos 0

-- A request to the kernel: its mode and the value.
abbrev pub Request : Type 0
Request = ℕ × ℤ

-- The kernel's mode for one of the stock modes that have one.
abbrev pub kernel_mode : ℕ → Option ℕ
kernel_mode mode =
    if mode == 0
    then some 5
    else if mode == 14
    then some 1
    else if mode == 20
    then some 7
    else if mode == 24
    then some 0
    else none

-- setModeValueLocked; the status and the request that is made.
unfoldable pub set_mode_value_locked : Answer → ℕ → ℤ → ℤ × List Request
set_mode_value_locked answer mode value =
    let values = values_of mode in
    let clamped = clamp value values.min_value values.max_value in
    elim (kernel_mode mode) [
      | some k ↦ (set_status answer, (k, clamped) ∷ [])
      | none ↦
          (if is_zero_ℤ values.min_value && is_zero_ℤ values.max_value then pos 0 else einval, [])
    ]

unfoldable pub set_mode_value : Answer → ℤ → ℤ → ℤ → ℤ × List Request
unfolding set_mode_value_locked
set_mode_value answer touch mode value = elim (valid_mode touch mode) [
  | none ↦ (einval, [])
  | some m ↦ set_mode_value_locked answer m value
]

-- currentValues_ and the constructor.
abbrev pub Values : Type 0
Values = List ℤ

abbrev pub initial_values : List ModeValues → Values
initial_values [] = []
initial_values (v ∷ vs) = v.initial ∷ initial_values vs

unfoldable pub new_values : Values
new_values = initial_values mode_table

-- What getKernelMode makes of an answer.
abbrev pub get_status : Answer → ℤ
get_status (failed e) = neg (pos e)
get_status (answered v) = v

-- getCurrentValueLocked: the value, and the array afterwards.
unfoldable pub get_current_value_locked : Answer → ℕ → Values → ℤ × Values
get_current_value_locked answer mode current =
    let value = get_status answer in
    let clamped = clamp value (values_of mode).min_value (values_of mode).max_value in
    if not (mode == 0)
    then (get_or current mode (pos 0), current)
    else if ltb_ℤ value (pos 0)
    then (value, current)
    else (clamped, set current mode clamped)

unfoldable pub get_mode_cur_value : Answer → ℤ → ℤ → Values → ℤ × Values
unfolding get_current_value_locked
get_mode_cur_value answer touch mode current = elim (valid_mode touch mode) [
  | none ↦ (einval, current)
  | some m ↦ get_current_value_locked answer m current
]

unfoldable pub get_mode_max_value : ℤ → ℤ → ℤ
get_mode_max_value touch mode = elim (valid_mode touch mode) [
  | none ↦ einval
  | some m ↦ (values_of m).max_value
]

unfoldable pub get_mode_min_value : ℤ → ℤ → ℤ
get_mode_min_value touch mode = elim (valid_mode touch mode) [
  | none ↦ einval
  | some m ↦ (values_of m).min_value
]

unfoldable pub get_mode_default_value : ℤ → ℤ → ℤ
get_mode_default_value touch mode = elim (valid_mode touch mode) [
  | none ↦ einval
  | some m ↦ (values_of m).default_value
]

-- getModeValue: the current, default, least and greatest value.
unfoldable pub get_mode_value : Answer → ℤ → ℤ → Values → List ℤ × Values
unfolding get_current_value_locked
get_mode_value answer touch mode current = elim (valid_mode touch mode) [
  | none ↦ (einval ∷ einval ∷ einval ∷ einval ∷ [], current)
  | some m ↦
      let read = get_current_value_locked answer m current in
      (
        read.0
            ∷ (values_of m).default_value
            ∷ (values_of m).min_value
            ∷ (values_of m).max_value
            ∷ [],
        read.1,
      )
]

unfoldable pub reset_mode_locked : Answer → ℕ → ℤ × List Request
reset_mode_locked answer mode =
    if mode == 0
    then (set_status answer, (5, (values_of 0).default_value) ∷ [])
    else if leb mode 8
    then (einval, [])
    else (pos 0, [])

unfoldable pub mode_reset : Answer → ℤ → ℤ → ℤ × List Request
unfolding reset_mode_locked
mode_reset answer touch mode = elim (valid_mode touch mode) [
  | none ↦ (einval, [])
  | some m ↦ reset_mode_locked answer m
]

-- setModeLongValue: opening the device is all that it does.
unfoldable pub set_mode_long_value : Bool → ℤ → ℤ → ℤ → List ℤ → ℤ
set_mode_long_value opened touch mode value_len values =
    if ltb_ℤ (pos 253) value_len then negsuc 0 else elim (valid_mode touch mode) [
      | none ↦ einval
      | some m ↦
          if ltb_ℤ value_len (pos 0) || ltb_ℤ (pos (length values)) value_len
          then einval
          else if opened
          then pos 0
          else negsuc 0
    ]
