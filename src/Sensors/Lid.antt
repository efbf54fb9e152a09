-- ===== src/Sensors/Lid.antt =====
-- sensors/lcd/LidStateTracker.cpp: the lid switch. What the entries of /dev/input answer is an
-- argument, in the order of readdir.
use android_hardware_xiaomi.Common.{
  ℕ, ◌⊎◌, inl, inr, ◌≡◌, refl, Bool, true, false, ◌&&◌, not, List, [], ◌∷◌, Option, none, some,
  arith, if◌then◌else◌,
}
use android_hardware_xiaomi.Common.Words.{test_bit, ev_sw, sw_lid}
use android_hardware_xiaomi.Sensors.OneShot.{OneShot, polled, end_poll, finish_poll}

-- An entry: whether its name begins with "event", the descriptor that open(2) gives, and what the
-- two EVIOCGBIT calls give.
pub record Entry : Type 0 where
  pub is_event : Bool
  pub opened : Option ℕ
  pub event_bits : Option (List ℕ)
  pub switch_bits : Option (List ℕ)

abbrev pub has_bit : Option (List ℕ) → ℕ → Bool
has_bit none bit = false
has_bit (some words) bit = test_bit words bit

unfoldable pub supports_lid_switch : Entry → Bool
supports_lid_switch e = has_bit e.event_bits ev_sw && has_bit e.switch_bits sw_lid

unfoldable pub find_lid_fd : List Entry → Option ℕ
find_lid_fd [] = none
find_lid_fd (e ∷ entries) =
    let rest = find_lid_fd entries in
    if e.is_event && supports_lid_switch e
    then elim e.opened [ none ↦ rest | some fd ↦ some fd ]
    else rest

pub record Tracker : Type 0 where
  pub lid_fd : Option ℕ

-- isLidOpen, once a descriptor is there; `state` is what EVIOCGSW gives.
unfoldable pub read_lid : Option (List ℕ) → Option ℕ → Tracker × Bool
read_lid state none = (record { lid_fd = none }, true)
read_lid none (some fd) = (record { lid_fd = none }, true)
read_lid (some words) (some fd) = (record { lid_fd = some fd }, not (test_bit words sw_lid))

unfoldable pub is_lid_open : List Entry → Option (List ℕ) → Tracker → Tracker × Bool
unfolding read_lid
is_lid_open entries state t =
    read_lid state (elim t.lid_fd [ none ↦ find_lid_fd entries | some fd ↦ some fd ])

-- A gesture that a lid-gated sensor detects while its tracker can read the lid switch and the lid is
-- shut is not posted, and the sensor stays as it was, armed for the next one.
pub shut_lid_suppresses :
    (entries : List Entry) (words : List ℕ) (fd : ℕ) (t : Tracker) (wake : Bool) (s : OneShot)
    → t.lid_fd ≡ some fd
    → test_bit words sw_lid ≡ true
    → s.polling ≡ true
    → let (t', open_) = is_lid_open entries (some words) t in
      (end_poll (polled true wake) true open_ s ≡ record s { polling = false }) × (t' ≡ t)
unfolding is_lid_open end_poll finish_poll
shut_lid_suppresses entries words fd t wake s known shut polls = (ground arith, ground arith)

read_lid-none : (fd : Option ℕ) → read_lid none fd ≡ (record { lid_fd = none }, true)
unfolding read_lid
read_lid-none none = refl
read_lid-none (some fd) = refl

-- Without a lid switch that can be read, nothing is gated: if no entry has one, or reading it fails,
-- the lid counts as open and no descriptor is kept.
pub unreadable_lid_open :
    (entries : List Entry) (state : Option (List ℕ)) (t : Tracker)
    → ((find_lid_fd entries ≡ none) × (t.lid_fd ≡ none)) ⊎ (state ≡ none)
    → is_lid_open entries state t ≡ (record { lid_fd = none }, true)
unfolding is_lid_open read_lid
unreadable_lid_open entries state t (inl (none_found, none_kept)) = ground arith
unreadable_lid_open entries state t (inr unread) =
    ground (arith, read_lid-none (elim t.lid_fd [ none ↦ find_lid_fd entries | some fd ↦ some fd ]))
