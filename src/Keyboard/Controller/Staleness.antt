-- ===== src/Keyboard/Controller/Staleness.antt =====
-- What a status that has timed out does to the gate before the query loop notices it.
use android_hardware_xiaomi.Common.{ℕ, ◌≡◌, ◌∙◌, refl, ap, inr, Bool, true, false, ◌&&◌, arith}
use android_hardware_xiaomi.Keyboard.Controller.{Controller, Env, desired_gate, update_input_gate}
use android_hardware_xiaomi.Keyboard.Controller.Gate.{
  update_input_gate_synced, update_input_gate-frame,
}
use android_hardware_xiaomi.Keyboard.Controller.Handlers.{on_hall_switch_state}
use android_hardware_xiaomi.Keyboard.Controller.QueryLoop.{Progress, status_timed_out}
use android_hardware_xiaomi.Keyboard.Controller.Invariant.{hall_switch, query, step}
use android_hardware_xiaomi.Keyboard.Controller.Registration.{step-Closes}

open_cover :
    (now : ℕ) (c : Controller)
    → c.have_input_hall_state ≡ true
    → c.last_input_hall_update ≡ now
    → c.input_hall_state ≡ 0x11
    → status_timed_out now c ≡ true
    → (c.have_sleep_state && c.keyboard_sleeping) ≡ false
    → desired_gate now c ≡ true
unfolding desired_gate status_timed_out
open_cover now c have at_now state stale awake = ground arith

status_timed_out-update :
    (env : Env) (requested force : Bool) (c : Controller)
    → status_timed_out env.now (update_input_gate env requested force c).0
      ≡ status_timed_out env.now c
unfolding status_timed_out
status_timed_out-update env requested force c =
    ap (status_timed_out env.now) (update_input_gate-frame env requested force c)

-- A report of an open cover registers the input devices although the connected status has timed
-- out, while the keyboard is awake and the gate's file can be written.
-- It takes a round of the query loop, here right after it, to remove them.
pub stale_status_registers :
    (env : Env) (p : Progress) (c : Controller)
    → env.file_ok ≡ true
    → status_timed_out env.now c ≡ true
    → (c.have_sleep_state && c.keyboard_sleeping) ≡ false
    → let opened = step env (hall_switch true true true) c in
      let checked = step env (query p) opened in
      (opened.input_gate_known ≡ true)
      × (opened.input_enabled ≡ true)
      × (checked.input_gate_known ≡ true)
      × (checked.input_enabled ≡ false)
unfolding on_hall_switch_state step
stale_status_registers env p c ok stale awake =
    let seen = record c {
      have_input_hall_state = true;
      input_hall_state = 0x11;
      last_input_hall_update = env.now;
    } in
    let kept = update_input_gate-frame env false false seen in
    let (known, enabled, decided) = update_input_gate_synced env false seen ok in
    let old : status_timed_out env.now seen ≡ true = unfold status_timed_out in stale in
    let still = status_timed_out-update env false false seen ∙ old in
    let opens = open_cover env.now seen refl refl refl old awake in
    let (shut_known, shut) =
      step-Closes env (query p) (update_input_gate env false false seen).0 ok (
        inr (
          ap (λ (d : Controller). d.have_sleep_state && d.keyboard_sleeping) kept ∙ awake,
          ground (arith, still),
        )) in
    (known, enabled ∙ opens, shut_known, shut)
