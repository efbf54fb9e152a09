-- ===== src/Keyboard/Nanoapp.antt =====
-- aidl/keyboard/KeyboardNanoapp.cpp: the Binder object. A callback is named by a number, its
-- identity; whether a call to it is answered with an ok status is an argument.
use android_hardware_xiaomi.Common.{
  ℕ, ◌≡◌, Bool, true, false, List, [], ◌∷◌, Option, none, some, arith, ◌==◌, if◌then◌else◌,
}
use android_hardware_xiaomi.Common.Int.{ℤ, pos, negsuc}
use android_hardware_xiaomi.Keyboard.Device.{Device, WriteOutcome, send_client_command}

pub record Nanoapp : Type 0 where
  pub callback : Option ℕ

-- A call of dataReceive_aidl or errorReceive_aidl on a callback.
pub data Delivery : Type 0 where
  data_receive : ℕ → List ℕ → Delivery
  error_receive : ℕ → ℤ → Delivery

unfoldable pub set_callback : Option ℕ → Nanoapp → Nanoapp
set_callback callback app = record app { callback = callback }

unfoldable pub clear_dead_callback : ℕ → Nanoapp → Nanoapp
clear_dead_callback callback app = elim app.callback [
  | none ↦ app
  | some current ↦ if current == callback then record app { callback = none } else app
]

unfoldable pub send_data : Bool → List ℕ → Nanoapp → Nanoapp × List Delivery
unfolding clear_dead_callback
send_data status_ok bytes app = elim app.callback [
  | none ↦ (app, [])
  | some c ↦ (if status_ok then app else clear_dead_callback c app, data_receive c bytes ∷ [])
]

unfoldable pub send_error : Bool → ℤ → Nanoapp → Nanoapp × List Delivery
unfolding clear_dead_callback
send_error status_ok error app = elim app.callback [
  | none ↦ (app, [])
  | some c ↦ (if status_ok then app else clear_dead_callback c app, error_receive c error ∷ [])
]

abbrev is_negative : ℤ → Bool
is_negative (pos n) = false
is_negative (negsuc n) = true

-- The result, the new state and the deliveries; the result goes to the caller, whose pointer for
-- it is not null.
unfoldable pub send_cmd :
    Bool → Device → WriteOutcome → List ℕ → Nanoapp → ℤ × Nanoapp × List Delivery
unfolding send_error
send_cmd status_ok d outcome buf app =
    let result = (send_client_command d outcome buf).0 in
    let after = if is_negative result then send_error status_ok result app else (app, []) in
    (result, after.0, after.1)

-- A callback whose call fails is dropped: what is sent afterwards reaches nobody until a client
-- registers a callback again. A callback whose call succeeds stays registered.
pub send_data_dead_callback :
    (ok : Bool) (first next : List ℕ) (error : ℤ) (app : Nanoapp)
    → let app' = (send_data false first app).0 in
      (send_data ok next app' ≡ (app', []))
      × (send_error ok error app' ≡ (app', []))
      × ((send_data true first app).0 ≡ app)
unfolding send_data send_error
send_data_dead_callback ok first next error app = ground arith

-- A command that fails is reported to the registered callback once, with the result that the
-- caller gets; a command that succeeds is not reported.
pub send_cmd_reports :
    (ok : Bool) (d : Device) (outcome : WriteOutcome) (buf : List ℕ) (c : ℕ)
    → let (result, app, deliveries) = send_cmd ok d outcome buf (record { callback = some c }) in
      deliveries ≡ (if is_negative result then error_receive c result ∷ [] else [])
unfolding send_cmd
send_cmd_reports ok d outcome buf c = ground arith
