-- ===== src/Examples/Rounds.antt =====
-- aidl/keyboard: a keyboard that falls silent, and a reader that is restarted.
use android_hardware_xiaomi.Common.{ℕ, ◌≤◌, ◌≡◌, refl, Bool, true, false, [], ◌∷◌, some, arith, ltb}
use android_hardware_xiaomi.Keyboard.Controller.{Controller, Env}
use android_hardware_xiaomi.Keyboard.Controller.QueryLoop.{
  fresh_progress, status_timed_out, query_round, query_rounds,
}
use android_hardware_xiaomi.Keyboard.Controller.Silence.{
  silence_removes, Stale, failed_removal_stays,
}
use android_hardware_xiaomi.Keyboard.Device.{polled, read_failed, again, run_round}
use android_hardware_xiaomi.Keyboard.Device.StopPipe.{
  starts, stops, calls, new_reader, wait_for_stop, restarted_reader_goes_on,
}
use android_hardware_xiaomi.Examples.Controllers.{attached}

abbrev registered : Controller
registered = record attached { input_enabled = true }

abbrev at : ℕ → Bool → Env
at now file_ok = record { now = now; device_open = true; send = λ f. true; file_ok = file_ok }

silence_removes_example :
    let (c, p) = query_rounds (at 2000 true ∷ at 4000 true ∷ []) fresh_progress registered in
    (query_round (at 8000 true) p c).0.input_enabled ≡ false
silence_removes_example =
    silence_removes (at 2000 true ∷ at 4000 true ∷ []) (at 8000 true) fresh_progress registered
      (refl, (refl, (refl, tt))) refl (omega arith)

times_out : status_timed_out 8000 registered ≡ true
unfolding status_timed_out
times_out = refl

failed_removal_stays_example :
    Stale
      (query_rounds
        (at 8000 false ∷ at 10000 true ∷ at 12000 true ∷ [])
        fresh_progress
        registered).0
failed_removal_stays_example =
    failed_removal_stays (at 8000 false) (at 10000 true ∷ at 12000 true ∷ []) fresh_progress
      registered refl times_out refl (refl, (refl, tt))

restarted : (calls (starts ∷ stops ∷ starts ∷ []) (new_reader true)).device.started ≡ true
unfolding calls new_reader
restarted = refl

restarted_reader_goes_on_example :
    let r = calls (starts ∷ stops ∷ starts ∷ []) (new_reader true) in
    (wait_for_stop true r ≡ false)
    × ((run_round r.device (record {
      opened = some 7;
      poll = polled (ltb 0 r.bytes) false true;
      read = read_failed 5;
    })).2
        ≡ again)
    × (r.bytes ≤ 1)
restarted_reader_goes_on_example =
    restarted_reader_goes_on true (starts ∷ stops ∷ starts ∷ []) (some 7) false true true
      (read_failed 5) restarted
