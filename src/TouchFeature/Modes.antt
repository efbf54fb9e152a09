-- ===== src/TouchFeature/Modes.antt =====
-- The values of the touch modes: what is sent, kept and returned.
use android_hardware_xiaomi.Common.{
  ℕ, zero, suc, ◌≡◌, refl, ap, ◌∙◌, Bool, true, false, ◌&&◌, not, List, [], ◌∷◌, set, get_or, none,
  some, arith,
}
use android_hardware_xiaomi.Common.Int.{ℤ, pos, ltb_ℤ}
use android_hardware_xiaomi.TouchFeature.{
  einval, ModeValues, mode_table, values_of, valid_mode, clamp, Answer, Request, Values, get_status,
  set_mode_value, set_mode_value_locked, new_values, get_current_value_locked, get_mode_cur_value,
  get_mode_max_value, get_mode_min_value, get_mode_default_value, get_mode_value, mode_reset,
  reset_mode_locked,
}

abbrev pub within : ModeValues → ℤ → Bool
within values v = not (ltb_ℤ v values.min_value) && not (ltb_ℤ values.max_value v)

clamp-within :
    (values : ModeValues) (v : ℤ)
    → ltb_ℤ values.max_value values.min_value ≡ false
    → within values (clamp v values.min_value values.max_value) ≡ true
clamp-within values v order = ground arith

-- The table's rows, checked one by one.
row_checks : ModeValues → Bool
row_checks r = not (ltb_ℤ r.max_value r.min_value) && within r r.initial && within r r.default_value

module _ (check : ModeValues → Bool) where
  all_rows : List ModeValues → Bool
  all_rows [] = true
  all_rows (r ∷ rows) = check r && all_rows rows

  all_rows_sound :
      (rows : List ModeValues) (default : ModeValues) (i : ℕ)
      → all_rows rows ≡ true
      → check default ≡ true
      → check (get_or rows i default) ≡ true
  unfolding all_rows
  all_rows_sound [] default i all d = d
  all_rows_sound (r ∷ rows) default zero all d = ground arith
  all_rows_sound (r ∷ rows) default (suc i) all d = all_rows_sound rows default i (ground arith) d

values_of_checks : (mode : ℕ) → row_checks (values_of mode) ≡ true
unfolding row_checks all_rows values_of
values_of_checks mode = all_rows_sound row_checks mode_table _ mode refl refl

-- Every request of a list keeps to a row.
abbrev pub all_within : ModeValues → List Request → Bool
all_within values [] = true
all_within values ((k, v) ∷ requests) = within values v && all_within values requests

clamped-within :
    (mode : ℕ) (v : ℤ)
    → within (values_of mode) (clamp v (values_of mode).min_value (values_of mode).max_value) ≡ true
unfolding row_checks
clamped-within mode v =
    let checked = values_of_checks mode in clamp-within (values_of mode) v (ground arith)

-- Whatever value a caller asks for, and for a reset too, each request that reaches the kernel lies
-- between the least and the greatest value of the stock mode.
pub requests_within :
    (answer : Answer) (touch mode value : ℤ) (m : ℕ)
    → valid_mode touch mode ≡ some m
    → (all_within (values_of m) (set_mode_value answer touch mode value).1 ≡ true)
      × (all_within (values_of m) (mode_reset answer touch mode).1 ≡ true)
unfolding set_mode_value set_mode_value_locked mode_reset reset_mode_locked row_checks
requests_within answer touch mode value m valid =
    (ground (arith, clamped-within m value), ground (arith, values_of_checks m))

-- The kept value of every mode is one that the mode allows.
abbrev pub kept : List ModeValues → Values → Bool
kept [] [] = true
kept [] (v ∷ vs) = false
kept (r ∷ rows) [] = false
kept (r ∷ rows) (v ∷ vs) = within r v && kept rows vs

kept-set :
    (rows : List ModeValues) (current : Values) (default : ModeValues) (i : ℕ) (v : ℤ)
    → kept rows current ≡ true
    → within (get_or rows i default) v ≡ true
    → kept rows (set current i v) ≡ true
kept-set [] [] default i v fits h = refl
kept-set [] (c ∷ current) default i v fits h = absurd (ground arith)
kept-set (r ∷ rows) [] default i v fits h = absurd (ground arith)
kept-set (r ∷ rows) (c ∷ current) default zero v fits h = ground arith
kept-set (r ∷ rows) (c ∷ current) default (suc i) v fits h =
    let rest = kept-set rows current default i v (ground arith) h in ground arith

kept-get :
    (rows : List ModeValues) (current : Values) (default : ModeValues) (i : ℕ) (v : ℤ)
    → kept rows current ≡ true
    → within default v ≡ true
    → within (get_or rows i default) (get_or current i v) ≡ true
kept-get [] [] default i v fits h = h
kept-get [] (c ∷ current) default i v fits h = absurd (ground arith)
kept-get (r ∷ rows) [] default i v fits h = absurd (ground arith)
kept-get (r ∷ rows) (c ∷ current) default zero v fits h = ground arith
kept-get (r ∷ rows) (c ∷ current) default (suc i) v fits h =
    kept-get rows current default i v (ground arith) h

-- The calls that read a current value, each with the kernel's answer.
pub data Read : Type 0 where
  reads_current : Answer → ℤ → ℤ → Read
  reads_all : Answer → ℤ → ℤ → Read

unfoldable pub read : Read → Values → Values
read (reads_current answer touch mode) current = (get_mode_cur_value answer touch mode current).1
read (reads_all answer touch mode) current = (get_mode_value answer touch mode current).1

unfoldable pub read_many : List Read → Values → Values
read_many [] current = current
read_many (r ∷ rs) current = read_many rs (read r current)

values_within :
    (mode : ℕ) (current : Values)
    → kept mode_table current ≡ true
    → within (values_of mode) (get_or current mode (pos 0)) ≡ true
unfolding values_of
values_within mode current fits = kept-get mode_table current _ mode (pos 0) fits refl

set-within :
    (mode : ℕ) (v : ℤ) (current : Values)
    → kept mode_table current ≡ true
    → within (values_of mode) v ≡ true
    → kept mode_table (set current mode v) ≡ true
unfolding values_of
set-within mode v current fits h = kept-set mode_table current _ mode v fits h

get_current-kept :
    (answer : Answer) (mode : ℕ) (current : Values)
    → kept mode_table current ≡ true
    → kept mode_table (get_current_value_locked answer mode current).1 ≡ true
unfolding get_current_value_locked
get_current-kept answer mode current fits =
    let v = clamp (get_status answer) (values_of mode).min_value (values_of mode).max_value in
    let stored = set-within mode v current fits (clamped-within mode (get_status answer)) in
    ground arith

-- getModeValue gives what the four single calls give, also when it refuses its arguments, and keeps
-- the same current values as the call for the current one.
pub get_mode_value_parts :
    (answer : Answer) (touch mode : ℤ) (current : Values)
    → let read_one = get_mode_cur_value answer touch mode current in
      get_mode_value answer touch mode current ≡ (
        read_one.0
            ∷ get_mode_default_value touch mode
            ∷ get_mode_min_value touch mode
            ∷ get_mode_max_value touch mode
            ∷ [],
        read_one.1,
      )
unfolding get_mode_value get_mode_cur_value get_mode_default_value get_mode_min_value
    get_mode_max_value
get_mode_value_parts answer touch mode current = ground arith

current-kept :
    (answer : Answer) (touch mode : ℤ) (current : Values)
    → kept mode_table current ≡ true
    → kept mode_table (get_mode_cur_value answer touch mode current).1 ≡ true
unfolding get_mode_cur_value
current-kept answer touch mode current fits =
    elim (valid_mode touch mode)
      as (λ m.
        kept mode_table
          (elim m as (λ x. ℤ × Values) [
            | none ↦ (einval, current)
            | some n ↦ get_current_value_locked answer n current
          ]).1
        ≡ true) [ none ↦ fits | some n ↦ get_current-kept answer n current fits ]

read-kept :
    (r : Read) (current : Values)
    → kept mode_table current ≡ true
    → kept mode_table (read r current) ≡ true
unfolding read
read-kept (reads_current answer touch mode) current fits =
    current-kept answer touch mode current fits
read-kept (reads_all answer touch mode) current fits =
    ap (λ r. kept mode_table r.1) (get_mode_value_parts answer touch mode current)
    ∙ current-kept answer touch mode current fits

keeps_reading :
    (reads : List Read) (current : Values)
    → kept mode_table current ≡ true
    → kept mode_table (read_many reads current) ≡ true
unfolding read_many
keeps_reading [] current fits = fits
keeps_reading (r ∷ rs) current fits = keeps_reading rs (read r current) (read-kept r current fits)

-- Whatever the kernel answers to any sequence of reads after the start of the service, the current
-- value that is kept for each mode lies between its least and its greatest value.
pub read_many-kept : (reads : List Read) → kept mode_table (read_many reads new_values) ≡ true
unfolding new_values
read_many-kept reads = keeps_reading reads new_values refl
