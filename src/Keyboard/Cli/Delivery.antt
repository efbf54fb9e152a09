-- ===== src/Keyboard/Cli/Delivery.antt =====
-- From a command line to the device: what the client sends (keyboard_client.cpp) goes through the
-- Binder object (KeyboardNanoapp.cpp) and the controller to the device (NanoappDevice.cpp).
use android_hardware_xiaomi.Common.{
  ℕ, ◌≡◌, refl, ap, Bool, true, false, List, [], ◌∷◌, length, some, arith, drop, Option-cases, inl,
  inr,
}
use android_hardware_xiaomi.Common.Int.{ℤ, pos}
use android_hardware_xiaomi.Keyboard.Reports.{byte}
use android_hardware_xiaomi.Keyboard.Client.{decode_client_command}
use android_hardware_xiaomi.Keyboard.Client.Framing.{decode_client_command_transfer}
use android_hardware_xiaomi.Keyboard.Device.{
  Device, wrote, is_open, write_command, send_client_command,
}
use android_hardware_xiaomi.Keyboard.Nanoapp.{Nanoapp, send_cmd}
use android_hardware_xiaomi.Keyboard.Cli.{
  Plan, usage, bad_byte, bad_raw, sends, sends_raw, Strtoul, plan,
}
use android_hardware_xiaomi.Keyboard.Cli.Commands.{PlanDecodes, Decodes, plan-PlanDecodes}

-- A call of the service by which the device gets just one transfer, that of `raw`, all of it, and the
-- caller its size.
abbrev pub Transferred : Device → Nanoapp → List ℕ → List ℕ → Type 0
Transferred d app command raw =
    (length raw ≡ 66)
    × (byte raw 0 ≡ 0x32)
    × ((send_client_command d (wrote 66) command).1 ≡ raw ∷ [])
    × ((ok : Bool) → send_cmd ok d (wrote 66) command app ≡ (pos 66, app, []))

abbrev pub AllTransferred : Device → Nanoapp → List (List ℕ) → Type 0
AllTransferred d app [] = Unit
AllTransferred d app (f ∷ frames) = Transferred d app f (drop 2 f) × AllTransferred d app frames

-- A refused command line sends nothing; the frames that the client builds lose their two framing
-- bytes, and raw bytes become some transfer.
abbrev pub PlanTransferred : Device → Nanoapp → Plan → Type 0
PlanTransferred d app usage = Unit
PlanTransferred d app bad_byte = Unit
PlanTransferred d app bad_raw = Unit
PlanTransferred d app (sends frames wait) = AllTransferred d app frames
PlanTransferred d app (sends_raw bytes) = (raw : List ℕ) × Transferred d app bytes raw

module _ (d : Device) (app : Nanoapp) (opened : is_open d ≡ true) (runs : d.stopping ≡ false) where
  written :
      (raw : List ℕ) → length raw ≡ 66 → write_command d (wrote 66) (some raw) ≡ (pos 66, raw ∷ [])
  unfolding write_command
  written raw size = ground arith

  sent :
      (command raw : List ℕ)
      → decode_client_command command ≡ some raw
      → length raw ≡ 66
      → send_client_command d (wrote 66) command ≡ (pos 66, raw ∷ [])
  unfolding send_client_command
  sent command raw e size = rw (send_client_command, e) (written raw size)

  transferred :
      (command raw : List ℕ)
      → decode_client_command command ≡ some raw
      → Transferred d app command raw
  unfolding send_cmd
  transferred command raw e =
      let (size, first) = decode_client_command_transfer command raw e in
      let this = sent command raw e size in
      (size, first, ap (λ (r : ℤ × List (List ℕ)). r.1) this, λ ok. rw this refl)

  all_transferred : (frames : List (List ℕ)) → Decodes frames → AllTransferred d app frames
  all_transferred [] decodes = tt
  all_transferred (f ∷ frames) (this, decodes) =
      (transferred f (drop 2 f) this, all_transferred frames decodes)

  plan_transferred : (q : Plan) → PlanDecodes q → PlanTransferred d app q
  unfolding PlanDecodes
  plan_transferred usage decodes = tt
  plan_transferred bad_byte decodes = tt
  plan_transferred bad_raw decodes = tt
  plan_transferred (sends frames wait) decodes = all_transferred frames decodes
  plan_transferred (sends_raw bytes) decodes = elim (Option-cases (decode_client_command bytes)) [
    | inl refused ↦ absurd (cc)
    | inr (raw, e) ↦ (raw, transferred bytes raw e)
  ]

  -- Whatever the command line, each command that the client sends reaches an open device that
  -- takes whole transfers as one transfer of 66 bytes that begins with the transport report: of a
  -- command that the client builds the bytes behind its two framing bytes, and raw bytes in some
  -- form. The client gets the size as the result, and nothing is reported to its callback.
  pub plan-PlanTransferred :
      (strtoul : Strtoul) (arguments : List (List ℕ))
      → PlanTransferred d app (plan strtoul arguments)
  plan-PlanTransferred strtoul arguments =
      plan_transferred (plan strtoul arguments) (plan-PlanDecodes strtoul arguments)
