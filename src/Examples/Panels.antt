-- ===== src/Examples/Panels.antt =====
-- hidl/touchfeature and vibrator: concrete requests, reads, events and effects.
use android_hardware_xiaomi.Common.{
  ℕ, ◌≡◌, ◌≢◌, refl, true, List, [], ◌∷◌, none, some, arith, if◌then◌else◌, ◌==◌,
}
use android_hardware_xiaomi.Common.Int.{pos}
use android_hardware_xiaomi.TouchFeature.{
  answered, failed, values_of, set_mode_value, mode_reset, new_values, mode_table,
}
use android_hardware_xiaomi.TouchFeature.Modes.{
  all_within, requests_within, reads_current, reads_all, read_many, kept, read_many-kept,
}
use android_hardware_xiaomi.Touch.{ControlFile}
use android_hardware_xiaomi.Vibrator.{Store, Files, out_of_fuel, get_effect_stream}
use android_hardware_xiaomi.Vibrator.Streams.{get_effect_stream_ends}
use android_hardware_xiaomi.Vibrator.Live.{Sound, get_effect_stream-Sound}

requests_within_example :
    (all_within (values_of 14) (set_mode_value (answered (pos 0)) (pos 0) (pos 14) (pos 9)).1
      ≡ true)
    × (all_within (values_of 14) (mode_reset (answered (pos 0)) (pos 0) (pos 14)).1 ≡ true)
requests_within_example = requests_within (answered (pos 0)) (pos 0) (pos 14) (pos 9) 14 refl

read_many-kept_example :
    kept mode_table (
      read_many
        (reads_current (answered (pos 500)) (pos 0) (pos 0)
          ∷ reads_all (failed 5) (pos 0) (pos 3)
          ∷ [])
        new_values)
    ≡ true
read_many-kept_example =
    read_many-kept (
      reads_current (answered (pos 500)) (pos 0) (pos 0)
      ∷ reads_all (failed 5) (pos 0) (pos 3)
      ∷ [])

abbrev bytes : List ℕ
bytes = b'd' ∷ b'o' ∷ b'w' ∷ b'n' ∷ 0 ∷ 7 ∷ []

-- A file for the click effect only.
abbrev files : Files
files is_primitive id = if is_primitive then none else if id == 0 then some (1 ∷ 2 ∷ []) else none

abbrev no_effects : Store
no_effects = record { streams = []; fifo_data = [] }

apart : ◌≢◌ {A = ℕ} 0 1
apart = ground arith

get_effect_stream_ends_example :
    ((get_effect_stream 0 1 2 files 1 no_effects).0 ≢ out_of_fuel)
    × (get_effect_stream 0 1 5 files 1 no_effects ≡ get_effect_stream 0 1 2 files 1 no_effects)
get_effect_stream_ends_example = get_effect_stream_ends 0 1 files apart 3 1 no_effects

get_effect_stream-Sound_example : Sound (get_effect_stream 0 1 2 files 1 no_effects) 1
get_effect_stream-Sound_example = get_effect_stream-Sound 0 1 files apart 1 no_effects (λ k. refl) 1

abbrev switch : ControlFile
switch = record { content = some "1"; writable = true }
