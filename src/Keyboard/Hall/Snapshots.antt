-- ===== src/Keyboard/Hall/Snapshots.antt =====
-- What the monitor reports of the switches, and what the controller makes of it.
use android_hardware_xiaomi.Common.{
  ℕ, ◌≡◌, refl, Bool, true, false, ◌&&◌, ◌||◌, not, List, [], ◌∷◌, Option, none, some, arith, ◌==◌,
  if◌then◌else◌,
}
use android_hardware_xiaomi.Common.Words.{ev_sw, sw_lid, sw_tablet_mode}
use android_hardware_xiaomi.Keyboard.Controller.{Controller, Env}
use android_hardware_xiaomi.Keyboard.Controller.Invariant.{hall_switch, step}
use android_hardware_xiaomi.Keyboard.Controller.Registration.{step-Closes}
use android_hardware_xiaomi.Keyboard.Hall.{
  Entry, Switches, Monitor, Report, snapshot, InputEvent, apply_event, apply_events, PollOutcome,
  ReadOutcome, poll_failed, timed_out, polled, events_read, would_block, read_failed, Next, again,
  leave, rescan, run_round, start, stop, after_poll, attach, take_events, find_switch_device,
}

-- Whether a switch is open after some events: by its last event, or as before if there is none.
abbrev pub last_switch : ℕ → List InputEvent → Bool → Bool
last_switch code [] before = before
last_switch code (e ∷ events) before =
    last_switch code events (if e.kind == ev_sw && e.code == code then e.value == 0 else before)

abbrev pub has_switch : List InputEvent → Bool
has_switch [] = false
has_switch (e ∷ events) =
    (e.kind == ev_sw && (e.code == sw_lid || e.code == sw_tablet_mode)) || has_switch events

apply_event_lem :
    (e : InputEvent) (r : Switches × Bool)
    → let r' = apply_event e r in
      (r'.0.lid_open ≡ (if e.kind == ev_sw && e.code == sw_lid then e.value == 0 else r.0.lid_open))
      × (r'.0.tablet_open
          ≡ (if e.kind == ev_sw && e.code == sw_tablet_mode then e.value == 0 else r.0.tablet_open))
      × (r'.1 ≡ (r.1 || (e.kind == ev_sw && (e.code == sw_lid || e.code == sw_tablet_mode))))
unfolding apply_event
apply_event_lem e r = ground arith

-- Reading a block of events leaves each switch as its last event says, and counts as a change just
-- when an event of one of the two switches is among them.
pub apply_events_lem :
    (events : List InputEvent) (r : Switches × Bool)
    → let r' = apply_events events r in
      (r'.0.lid_open ≡ last_switch sw_lid events r.0.lid_open)
      × (r'.0.tablet_open ≡ last_switch sw_tablet_mode events r.0.tablet_open)
      × (r'.1 ≡ (r.1 || has_switch events))
unfolding apply_events
apply_events_lem [] r = ground arith
apply_events_lem (e ∷ events) r =
    let rest = apply_events_lem events (apply_event e r) in
    let (lid, tablet, changed) = apply_event_lem e r in
    (rw (← lid) rest.0, rw (← tablet) rest.1, ground arith)

-- What a round reports, and the device after it.
abbrev pub Faithful : Monitor × List Report × Next → Type 0
Faithful (m, [], next) = Unit
Faithful (m, r ∷ rest, next) =
    (rest ≡ []) × (elim m.device [ none ↦ r.valid ≡ false | some s ↦ r ≡ snapshot s ])

take_events-Faithful :
    (m : Monitor) (s : Switches) (read : ReadOutcome) → Faithful (take_events m s read)
unfolding take_events
take_events-Faithful m s (events_read events) =
    elim (apply_events events (s, false)).1
      as (λ b. Faithful (
        record m { device = some ((apply_events events (s, false)).0) },
        if b then snapshot ((apply_events events (s, false)).0) ∷ [] else [],
        again,
      )) [ true ↦ (refl, refl) | false ↦ tt ]
take_events-Faithful m s would_block = tt
take_events-Faithful m s read_failed = (refl, refl)

after_poll-Faithful :
    (m : Monitor) (s : Switches) (poll : PollOutcome) (read : ReadOutcome)
    → m.device ≡ some s
    → Faithful (after_poll m s poll read)
unfolding after_poll
after_poll-Faithful m s poll_failed read e = (refl, refl)
after_poll-Faithful m s timed_out read e = (refl, rw e refl)
after_poll-Faithful m s (polled broken readable) read e =
    elim (m.stop_pipe && m.stop_signal)
      as (λ b. Faithful (
        if b
        then (record m { device = none }, [], leave)
        else if broken
        then rescan m
        else if not readable
        then (m, [], again)
        else take_events m s read)) [ true ↦ tt | false ↦ by_flags broken readable ]
  where
    by_flags :
        (broken readable : Bool)
        → Faithful (
            if broken
            then rescan m
            else if not readable
            then (m, [], again)
            else take_events m s read)
    by_flags true readable = (refl, refl)
    by_flags false false = tt
    by_flags false true = take_events-Faithful m s read

with_device-Faithful :
    (device : Option Switches) (entries : List Entry) (poll : PollOutcome) (read : ReadOutcome)
    (m : Monitor)
    → m.device ≡ device
    → Faithful (elim device as (λ d. Monitor × List Report × Next) [
      | none ↦ attach m (find_switch_device entries)
      | some s ↦ after_poll m s poll read
    ])
unfolding attach
with_device-Faithful none entries poll read m e =
    elim (find_switch_device entries) as (λ found. Faithful (attach m found)) [
      | none ↦ tt
      | some s ↦ (refl, refl)
    ]
with_device-Faithful (some s) entries poll read m e = after_poll-Faithful m s poll read e

-- A round of the monitor makes at most one report. A valid report shows the two switches as the
-- monitor holds them afterwards, on a device that stays open; a report that is not valid leaves no
-- device open, so that the next round looks for one.
pub run_round-Faithful :
    (entries : List Entry) (poll : PollOutcome) (read : ReadOutcome) (m : Monitor)
    → Faithful (run_round entries poll read m)
unfolding run_round
run_round-Faithful entries poll read m =
    elim (m.stopping)
      as (λ b. Faithful (
        if b then (record m { device = none }, [], leave) else elim m.device [
          | none ↦ attach m (find_switch_device entries)
          | some s ↦ after_poll m s poll read
        ])) [ true ↦ tt | false ↦ with_device-Faithful m.device entries poll read m refl ]

-- The monitor's callback is the controller's handler.
unfoldable pub report_all : Env → List Report → Controller → Controller
report_all env [] c = c
report_all env (r ∷ rest) c =
    report_all env rest (step env (hall_switch r.valid r.lid_open r.tablet_open) c)

-- While the monitor runs with an open device and without a stop signal, and the gate's file can
-- be written, a read whose last events of the switches leave one of them closed removes the input
-- devices in the same round.
pub closed_cover_removes :
    (env : Env) (entries : List Entry) (events : List InputEvent) (m : Monitor) (s : Switches)
    (c : Controller)
    → env.file_ok ≡ true
    → m.stopping ≡ false
    → m.stop_signal ≡ false
    → m.device ≡ some s
    → has_switch events ≡ true
    → (last_switch sw_lid events s.lid_open && last_switch sw_tablet_mode events s.tablet_open)
      ≡ false
    → let (m', reports, next) = run_round entries (polled false true) (events_read events) m in
      let c' = report_all env reports c in (c'.input_gate_known ≡ true) × (c'.input_enabled ≡ false)
unfolding run_round after_poll take_events report_all
closed_cover_removes env entries events m s c ok runs calm open_ some_switch closed =
    let (lid, tablet, changed) = apply_events_lem events (s, false) in
    let r = (apply_events events (s, false)).0 in
    let shut : (r.lid_open && r.tablet_open) ≡ false = rw (lid, tablet) closed in
    let closes = step-Closes env (hall_switch true r.lid_open r.tablet_open) c ok (refl, shut) in
    ground arith

-- A monitor that is stopped and started again does not watch the switches: the byte in the stop pipe
-- stays, so that the first poll that returns with events ends the thread without a report, whatever
-- the events are. Here the monitor has a stop pipe and was started before.
pub restart_leaves :
    (entries : List Entry) (broken readable : Bool) (read : ReadOutcome) (m : Monitor)
    (s : Switches)
    → m.started ≡ true
    → m.stop_pipe ≡ true
    → let again_started = record (start (stop m)) { device = some s } in
      (again_started.started ≡ true)
      × (again_started.stopping ≡ false)
      × ((run_round entries (polled broken readable) read again_started).1 ≡ [])
      × ((run_round entries (polled broken readable) read again_started).2 ≡ leave)
unfolding start stop run_round after_poll
restart_leaves entries broken readable read m s started pipe =
    (ground arith, ground arith, ground arith, ground arith)
