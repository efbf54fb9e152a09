-- ===== src/Keyboard/Controller/Silence.antt =====
-- What the rounds of queryLoop come to when the keyboard falls silent: no report, error or Hall
-- switch arrives between them.
use android_hardware_xiaomi.Common.{
  ◌-◌, ◌<◌, ◌≡◌, refl, ◌∙◌, sym, ap, subst, true, false, ◌&&◌, not, List, [], ◌∷◌, arith,
}
use android_hardware_xiaomi.Keyboard.Controller.{
  Controller, Env, desired_gate, update_input_gate, switch_touchpad, status_timeout,
}
use android_hardware_xiaomi.Keyboard.Controller.Gate.{
  update_input_gate-frame, update_input_gate_synced,
}
use android_hardware_xiaomi.Keyboard.Controller.Handlers.{forget_device}
use android_hardware_xiaomi.Keyboard.Controller.QueryLoop.{
  Progress, status_timed_out, hall_timed_out, expire, check_timeouts, query_round, query_rounds,
}

-- The devices are registered only for a keyboard that is connected and awake.
abbrev pub Upheld : Controller → Type 0
Upheld c =
    (c.input_enabled
      && not
          (c.have_status && c.status.connected && not (c.have_sleep_state && c.keyboard_sleeping)))
    ≡ false

abbrev pub FilesWritten : List Env → Type 0
FilesWritten [] = Unit
FilesWritten (env ∷ envs) = (env.file_ok ≡ true) × FilesWritten envs

abbrev pub DeviceOpen : List Env → Type 0
DeviceOpen [] = Unit
DeviceOpen (env ∷ envs) = (env.device_open ≡ true) × DeviceOpen envs

update-Upheld :
    (env : Env) (c : Controller)
    → env.file_ok ≡ true
    → Upheld (update_input_gate env false false c).0
unfolding desired_gate
update-Upheld env c ok =
    ground
      (arith, update_input_gate_synced env false c ok, update_input_gate-frame env false false c)

update_last_status :
    (env : Env) (c : Controller)
    → (update_input_gate env false false c).0.last_status_update ≡ c.last_status_update
update_last_status env c =
    ap (λ (d : Controller). d.last_status_update) (update_input_gate-frame env false false c)

query_round-Upheld :
    (env : Env) (p : Progress) (c : Controller)
    → env.file_ok ≡ true
    → Upheld c
    → Upheld (query_round env p c).0
unfolding query_round check_timeouts
query_round-Upheld env p c ok h =
    let expired = update-Upheld env (expire env.now c) ok in
    let forgotten = update-Upheld env (forget_device c) ok in ground arith

query_round_last_status :
    (env : Env) (p : Progress) (c : Controller)
    → (query_round env p c).0.last_status_update ≡ c.last_status_update
unfolding query_round check_timeouts expire forget_device
query_round_last_status env p c =
    let expired = update_last_status env (expire env.now c) in
    let forgotten = update_last_status env (forget_device c) in ground arith

late_round :
    (env : Env) (p : Progress) (c : Controller)
    → env.file_ok ≡ true
    → Upheld c
    → status_timeout < env.now - c.last_status_update
    → (query_round env p c).0.input_enabled ≡ false
unfolding query_round check_timeouts expire status_timed_out hall_timed_out forget_device
    desired_gate
late_round env p c ok h late =
    let expired = update_input_gate_synced env false (expire env.now c) ok in
    let forgotten = update_input_gate_synced env false (forget_device c) ok in ground arith

rounds_keep :
    (envs : List Env) (p : Progress) (c : Controller)
    → FilesWritten envs
    → Upheld c
    → Upheld (query_rounds envs p c).0
      × ((query_rounds envs p c).0.last_status_update ≡ c.last_status_update)
unfolding query_rounds
rounds_keep [] p c ok h = (h, refl)
rounds_keep (env ∷ envs) p c (now_ok, ok) h =
    let r = query_round env p c in
    let (kept, same) = rounds_keep envs r.1 r.0 ok (query_round-Upheld env p c now_ok h) in
    (kept, same ∙ query_round_last_status env p c)

-- A keyboard that falls silent loses its input devices: from a state in which they are registered
-- at most for a connected and awake keyboard, after any rounds of the query loop, whatever the
-- device, the sends and the clock do in them, the first round that is later than the timeout
-- after the last status leaves no input device registered, if the gate's file can be written in
-- all these rounds.
pub silence_removes :
    (envs : List Env) (env : Env) (p : Progress) (c : Controller)
    → FilesWritten (env ∷ envs)
    → Upheld c
    → status_timeout < env.now - c.last_status_update
    → let (c', p') = query_rounds envs p c in (query_round env p' c').0.input_enabled ≡ false
silence_removes envs env p c (now_ok, ok) h late =
    let (c', p') = query_rounds envs p c in
    let (kept, same) = rounds_keep envs p c ok h in
    late_round env p' c' now_ok kept (subst (λ t. status_timeout < env.now - t) (sym same) late)

-- A state in which a status timed out while the devices are registered.
abbrev pub Stale : Controller → Type 0
Stale c = (c.have_status ≡ false) × (c.input_gate_known ≡ true) × (c.input_enabled ≡ true)

failed_round-Stale :
    (env : Env) (p : Progress) (c : Controller)
    → env.file_ok ≡ false
    → (env.device_open
        && not (c.have_sleep_state && c.keyboard_sleeping)
        && status_timed_out env.now c)
      ≡ true
    → (c.input_gate_known && c.input_enabled) ≡ true
    → Stale (query_round env p c).0
unfolding query_round check_timeouts expire update_input_gate switch_touchpad desired_gate
failed_round-Stale env p c failed timed_out registered = ground arith

query_round-Stale :
    (env : Env) (p : Progress) (c : Controller)
    → env.device_open ≡ true
    → Stale c
    → Stale (query_round env p c).0
unfolding query_round check_timeouts status_timed_out hall_timed_out
query_round-Stale env p c opened h = ground arith

query_rounds-Stale :
    (envs : List Env) (p : Progress) (c : Controller)
    → DeviceOpen envs
    → Stale c
    → Stale (query_rounds envs p c).0
unfolding query_rounds
query_rounds-Stale [] p c opened h = h
query_rounds-Stale (env ∷ envs) p c (now_open, opened) h =
    let r = query_round env p c in
    query_rounds-Stale envs r.1 r.0 opened (query_round-Stale env p c now_open h)

-- A removal that fails is not tried again: if the gate's file cannot be written in the round in
-- which the status of a registered, awake keyboard times out, the devices stay registered over
-- all further rounds of the query loop with the device open, whether the file can be written in
-- them or not.
pub failed_removal_stays :
    (env : Env) (envs : List Env) (p : Progress) (c : Controller)
    → env.file_ok ≡ false
    → (env.device_open
        && not (c.have_sleep_state && c.keyboard_sleeping)
        && status_timed_out env.now c)
      ≡ true
    → (c.input_gate_known && c.input_enabled) ≡ true
    → DeviceOpen envs
    → Stale (query_rounds (env ∷ envs) p c).0
unfolding query_rounds
failed_removal_stays env envs p c failed timed_out registered opened =
    let r = query_round env p c in
    query_rounds-Stale envs r.1 r.0 opened (failed_round-Stale env p c failed timed_out registered)
