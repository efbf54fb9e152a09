-- ===== src/Sensors/Lcd/Gate.antt =====
-- The gestures of the panel while the lid is shut, over every order of calls and polls.
use android_hardware_xiaomi.Common.{
  ℕ, ◌+◌, ◌≡◌, ◌∙◌, refl, ap, Bool, true, false, List, [], ◌∷◌, Option, some, arith,
}
use android_hardware_xiaomi.Common.Words.{test_bit, sw_lid}
use android_hardware_xiaomi.Sensors.OneShot.{
  OneShot, OperationMode, PollResult, poll_failed, polled, activate, set_operation_mode, begin_poll,
  end_poll, normal,
}
use android_hardware_xiaomi.Sensors.Lid.{Entry, Tracker, is_lid_open}
use android_hardware_xiaomi.Sensors.SubHal.{SubHal, change, change_all, activate_sensor}
use android_hardware_xiaomi.Sensors.Lcd as Lcd
use android_hardware_xiaomi.Sensors.Lcd.{Lcd, asks, end_gated_poll}

pub data Call : Type 0 where
  activates_sensor : ℕ → Bool → Call
  sets_all_modes : OperationMode → Call
  initializes : Call
  begins_poll : ℕ → Call
  ends_poll : ℕ → PollResult → Bool → List Entry → Option (List ℕ) → Call

unfoldable pub call : Call → Lcd → Lcd
unfolding Lcd.activate Lcd.set_operation_mode Lcd.initialize
call (activates_sensor handle enabled) l = (Lcd.activate handle enabled l).0
call (sets_all_modes mode) l = (Lcd.set_operation_mode mode l).0
call initializes l = (Lcd.initialize l).0
call (begins_poll handle) l = record l {
  hal = record (l.hal) { sensors = change handle begin_poll l.hal.sensors };
}
call (ends_poll handle poll detected entries state) l =
    end_gated_poll handle poll detected entries state l

unfoldable pub calls : List Call → Lcd → Lcd
unfolding call
calls [] l = l
calls (c ∷ cs) l = calls cs (call c l)

-- The events that the sensors have posted.
abbrev pub posted : List (ℕ × OneShot) → ℕ
posted [] = 0
posted ((h, s) ∷ sensors) = s.events + posted sensors

-- Every reading of the lid that a poll's end may make finds it shut.
abbrev pub LidShut : List Call → Type 0
LidShut [] = Unit
LidShut (activates_sensor handle enabled ∷ cs) = LidShut cs
LidShut (sets_all_modes mode ∷ cs) = LidShut cs
LidShut (initializes ∷ cs) = LidShut cs
LidShut (begins_poll handle ∷ cs) = LidShut cs
LidShut (ends_poll handle poll detected entries state ∷ cs) =
    ((words : List ℕ) × (state ≡ some words) × (test_bit words sw_lid ≡ true)) × LidShut cs

module _ (f : OneShot → OneShot) (keeps : (s : OneShot) → (f s).events ≡ s.events) where
  posted-change :
      (handle : ℕ) (sensors : List (ℕ × OneShot))
      → posted (change handle f sensors) ≡ posted sensors
  posted-change handle [] = refl
  posted-change handle ((h, s) ∷ sensors) =
      let rest = posted-change handle sensors in let this = keeps s in ground arith

  posted-change_all :
      (sensors : List (ℕ × OneShot)) → posted (change_all f sensors) ≡ posted sensors
  posted-change_all [] = refl
  posted-change_all ((h, s) ∷ sensors) = omega (arith, keeps s, posted-change_all sensors)

activate_events : (enable : Bool) (s : OneShot) → (activate enable s).events ≡ s.events
unfolding activate
activate_events enable s = ground arith

set_mode_events :
    (mode : OperationMode) (s : OneShot) → (set_operation_mode mode s).events ≡ s.events
unfolding set_operation_mode
set_mode_events mode s = ground arith

begin_poll_events : (s : OneShot) → (begin_poll s).events ≡ s.events
unfolding begin_poll
begin_poll_events s = ground arith

end_poll_shut :
    (poll : PollResult) (detected : Bool) (s : OneShot)
    → (end_poll poll detected false s).events ≡ s.events
unfolding end_poll
end_poll_shut poll_failed detected s = ground arith
end_poll_shut (polled gesture wake) detected s = ground arith

posted-activate_sensor :
    (handle : ℕ) (enabled : Bool) (h : SubHal)
    → posted (activate_sensor handle enabled h).0.sensors ≡ posted h.sensors
unfolding activate_sensor
posted-activate_sensor handle enabled h =
    let this = posted-change (activate enabled) (activate_events enabled) handle h.sensors in
    ground arith

known_lid :
    (entries : List Entry) (words : List ℕ) (fd : ℕ) (t : Tracker)
    → t.lid_fd ≡ some fd
    → test_bit words sw_lid ≡ true
    → is_lid_open entries (some words) t ≡ (t, false)
unfolding is_lid_open
known_lid entries words fd t known shut = ground arith

end_gated_shut :
    (handle : ℕ) (poll : PollResult) (detected : Bool) (entries : List Entry) (words : List ℕ)
    (fd : ℕ) (l : Lcd)
    → l.tracker.lid_fd ≡ some fd
    → test_bit words sw_lid ≡ true
    → let l' = end_gated_poll handle poll detected entries (some words) l in
      (posted l'.hal.sensors ≡ posted l.hal.sensors) × (l'.tracker ≡ l.tracker)
unfolding end_gated_poll
end_gated_shut handle poll detected entries words fd l known shut =
    rw (known_lid entries words fd l.tracker known shut) (
      posted-change (end_poll poll detected false) (end_poll_shut poll detected) handle
          l.hal.sensors,
      ground arith,
    )

-- Once the tracker has found the lid switch, and as long as every reading of it finds the lid
-- shut, no sensor of the panel posts an event: over every order of activations, mode changes,
-- initializations and polls of its sensors, whatever gestures the polls return.
pub shut_lid_posts_nothing :
    (cs : List Call) (fd : ℕ) (l : Lcd)
    → l.tracker.lid_fd ≡ some fd
    → LidShut cs
    → posted (calls cs l).hal.sensors ≡ posted l.hal.sensors
unfolding calls
shut_lid_posts_nothing [] fd l known shut = refl
shut_lid_posts_nothing (activates_sensor handle enabled ∷ cs) fd l known shut =
    shut_lid_posts_nothing cs fd (call (activates_sensor handle enabled) l) known shut
    ∙ posted-activate_sensor handle enabled l.hal
shut_lid_posts_nothing (sets_all_modes mode ∷ cs) fd l known shut =
    shut_lid_posts_nothing cs fd (call (sets_all_modes mode) l) known shut
    ∙ posted-change_all (set_operation_mode mode) (set_mode_events mode) l.hal.sensors
shut_lid_posts_nothing (initializes ∷ cs) fd l known shut =
    shut_lid_posts_nothing cs fd (call initializes l) known shut
    ∙ posted-change_all (set_operation_mode normal) (set_mode_events normal) l.hal.sensors
shut_lid_posts_nothing (begins_poll handle ∷ cs) fd l known shut =
    shut_lid_posts_nothing cs fd (call (begins_poll handle) l) known shut
    ∙ posted-change begin_poll begin_poll_events handle l.hal.sensors
shut_lid_posts_nothing (ends_poll handle poll detected entries state ∷ cs) fd l known
      ((words, read, bit), shut) =
    let (same, tracker) = end_gated_shut handle poll detected entries words fd l known bit in
    rw read (
      shut_lid_posts_nothing cs fd (end_gated_poll handle poll detected entries (some words) l)
        (ap (λ (t : Tracker). t.lid_fd) tracker ∙ known) shut
      ∙ same)
