-- ===== src/Keyboard/Hall.antt =====
-- aidl/keyboard/HallInputMonitor.cpp: the reader of the cover's Hall switches. What the entries of
-- /dev/input, poll(2) and read(2) answer is an argument; the thread is a sequence of rounds.
pub mod Snapshots
use android_hardware_xiaomi.Common.{
  ◌||◌, ℕ, Bool, true, false, ◌&&◌, not, List, [], ◌∷◌, Option, none, some, ◌==◌, if◌then◌else◌,
}
use android_hardware_xiaomi.Common.Words.{test_bit, ev_sw, sw_lid, sw_tablet_mode}

-- An entry: whether its name begins with "event", the descriptor that open(2) gives, whether its
-- device is named gpio-keys, and what EVIOCGBIT and EVIOCGSW give.
pub record Entry : Type 0 where
  pub is_event : Bool
  pub opened : Option ℕ
  pub is_gpio_keys : Bool
  pub supported : Option (List ℕ)
  pub state : Option (List ℕ)

-- A device with its two switches.
pub record Switches : Type 0 where
  pub fd : ℕ
  pub lid_open : Bool
  pub tablet_open : Bool

abbrev pub supports_switches : Option (List ℕ) → Bool
supports_switches none = false
supports_switches (some bits) = test_bit bits sw_lid && test_bit bits sw_tablet_mode

-- An entry that can be used.
unfoldable pub switch_device : Entry → Option Switches
switch_device e = elim e.opened [
  | none ↦ none
  | some fd ↦ elim e.state [
    | none ↦ none
    | some bits ↦
        if e.is_event && e.is_gpio_keys && supports_switches e.supported
        then some (record {
          fd = fd;
          lid_open = not (test_bit bits sw_lid);
          tablet_open = not (test_bit bits sw_tablet_mode);
        })
        else none
  ]
]

unfoldable pub find_switch_device : List Entry → Option Switches
find_switch_device [] = none
find_switch_device (e ∷ entries) =
    let rest = find_switch_device entries in
    elim (switch_device e) [ none ↦ rest | some s ↦ some s ]

-- `device` is the open device with the switches as they were last read, `stop_signal` whether the
-- stop pipe has a byte to read; nothing reads it.
pub record Monitor : Type 0 where
  pub device : Option Switches
  pub stop_pipe : Bool
  pub stop_signal : Bool
  pub started : Bool
  pub stopping : Bool

unfoldable pub start : Monitor → Monitor
start m = if m.started then m else record m { started = true; stopping = false }

-- The thread that it joins closes its device.
unfoldable pub stop : Monitor → Monitor
stop m =
    if m.started
    then record m {
      device = none;
      started = false;
      stopping = true;
      stop_signal = m.stop_pipe || m.stop_signal;
    }
    else m

-- A call of the callback: valid, lid open, tablet open.
pub record Report : Type 0 where
  pub valid : Bool
  pub lid_open : Bool
  pub tablet_open : Bool

abbrev pub snapshot : Switches → Report
snapshot s = record { valid = true; lid_open = s.lid_open; tablet_open = s.tablet_open }

abbrev pub lost : Report
lost = record { valid = false; lid_open = false; tablet_open = false }

pub record InputEvent : Type 0 where
  pub kind : ℕ
  pub code : ℕ
  pub value : ℕ

-- The loop over the events of one read, with whether a switch was among them.
unfoldable pub apply_event : InputEvent → Switches × Bool → Switches × Bool
apply_event e r =
    if not (e.kind == ev_sw)
    then r
    else if e.code == sw_lid
    then (record (r.0) { lid_open = e.value == 0 }, true)
    else if e.code == sw_tablet_mode
    then (record (r.0) { tablet_open = e.value == 0 }, true)
    else r

unfoldable pub apply_events : List InputEvent → Switches × Bool → Switches × Bool
unfolding apply_event
apply_events [] r = r
apply_events (e ∷ events) r = apply_events events (apply_event e r)

-- What poll(2) returns: an error, the timeout, or an error flag of the device and its readiness; it
-- reports the stop pipe too when that has a byte.
pub data PollOutcome : Type 0 where
  poll_failed timed_out : PollOutcome
  polled : Bool → Bool → PollOutcome

-- What read(2) returns: whole events, nothing for now, or an error or the end.
pub data ReadOutcome : Type 0 where
  events_read : List InputEvent → ReadOutcome
  would_block read_failed : ReadOutcome

pub data Next : Type 0 where
  again leave : Next

-- A device that fails is closed, and the callback told so.
abbrev pub rescan : Monitor → Monitor × List Report × Next
rescan m = (record m { device = none }, lost ∷ [], again)

take_events : Monitor → Switches → ReadOutcome → Monitor × List Report × Next
unfolding apply_events
take_events m s (events_read events) =
    let r = apply_events events (s, false) in
    (record m { device = some (r.0) }, if r.1 then snapshot (r.0) ∷ [] else [], again)
take_events m s would_block = (m, [], again)
take_events m s read_failed = rescan m

after_poll : Monitor → Switches → PollOutcome → ReadOutcome → Monitor × List Report × Next
unfolding take_events
after_poll m s poll_failed read = rescan m
after_poll m s timed_out read = (m, snapshot s ∷ [], again)
after_poll m s (polled broken readable) read =
    if m.stop_pipe && m.stop_signal
    then (record m { device = none }, [], leave)
    else if broken
    then rescan m
    else if not readable
    then (m, [], again)
    else take_events m s read

-- The part of a round that looks for a device, and reports it.
attach : Monitor → Option Switches → Monitor × List Report × Next
attach m none = (m, [], again)
attach m (some s) = (record m { device = some s }, snapshot s ∷ [], again)

-- A round of the outer loop without a device, or of the inner loop with one.
unfoldable pub run_round :
    List Entry → PollOutcome → ReadOutcome → Monitor → Monitor × List Report × Next
unfolding after_poll attach
run_round entries poll read m =
    if m.stopping then (record m { device = none }, [], leave) else elim m.device [
      | none ↦ attach m (find_switch_device entries)
      | some s ↦ after_poll m s poll read
    ]
