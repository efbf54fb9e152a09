-- ===== src/Vibrator.antt =====
-- vibrator/effect/effect.cpp: the streams of vibration effects, read from files on demand and kept.
-- Both static maps are association lists, the data pointer of a stream is its key in the map of
-- data, and `files` says what the file of an effect or of a primitive holds at the time of a call.
-- Effect::CLICK and Effect::DOUBLE_CLICK are parameters.
pub mod Streams
pub mod Live
use android_hardware_xiaomi.Common.{
  ℕ, zero, suc, ◌+◌, ◌*◌, ◌-◌, ◌^◌, ◌%◌, Bool, true, false, not, List, [], ◌∷◌, ◌++◌, Option, none,
  some, length, take, ltb, replicate, ◌==◌, if◌then◌else◌, bit_and,
}

-- effect_stream.
pub record EffectStream : Type 0 where
  pub effect_id : ℕ
  pub stream_length : ℕ
  pub play_rate_hz : ℕ
  pub data_key : ℕ

pub record Store : Type 0 where
  pub streams : List (ℕ × EffectStream)
  pub fifo_data : List (ℕ × List ℕ)

abbrev pub default_play_rate_hz : ℕ
default_play_rate_hz = 24000

abbrev pub primitive_mask : ℕ
primitive_mask = 2 ^ 15

abbrev pub Files : Type 0
Files = Bool → ℕ → Option (List ℕ)

module _ {ℓ} {A : Type ℓ} where
  abbrev pub find : ℕ → List (ℕ × A) → Option A
  find key [] = none
  find key ((k, a) ∷ entries) = if k == key then some a else find key entries

  -- emplace does not replace.
  abbrev pub emplace : ℕ → A → List (ℕ × A) → List (ℕ × A)
  emplace key a entries = elim (find key entries) [ none ↦ (key, a) ∷ entries | some b ↦ entries ]

-- The stream of a file's content, if the file opens, and the store with its data.
abbrev pub stream_of : ℕ → Store → Option (List ℕ) → Option (EffectStream × Store)
stream_of unique_id s none = none
stream_of unique_id s (some content) =
    let data_read = take (length content % 2 ^ 32) content in
    some (
      record {
        effect_id = bit_and unique_id (2 ^ 32 - 1 - primitive_mask);
        stream_length = length data_read;
        play_rate_hz = default_play_rate_hz;
        data_key = unique_id;
      },
      record s { fifo_data = emplace unique_id data_read s.fifo_data },
    )

unfoldable pub read_effect_stream_from_file : Files → ℕ → Store → Option (EffectStream × Store)
read_effect_stream_from_file files unique_id s =
    let effect_id = bit_and unique_id (2 ^ 32 - 1 - primitive_mask) in
    let is_primitive = not (bit_and unique_id primitive_mask == 0) in
    stream_of unique_id s (files is_primitive effect_id)

abbrev pub data_of : EffectStream → Store → List ℕ
data_of e s = elim (find e.data_key s.fifo_data) [ none ↦ [] | some bytes ↦ bytes ]

-- A buffer of n bytes with the effect at its start and, written last, at its end; n is not less than
-- the effect's length.
abbrev pub spread : ℕ → List ℕ → List ℕ
spread n bytes = take (n - length bytes) (bytes ++ replicate n 0) ++ bytes

-- Nothing if the copies would be written out of bounds.
unfoldable pub duplicate_effect : EffectStream → ℕ → Store → Option (EffectStream × Store)
duplicate_effect e new_id s =
    let new_length = e.stream_length * 4 % 2 ^ 32 in
    if ltb new_length e.stream_length
    then none
    else some (
      record {
        effect_id = new_id;
        stream_length = new_length;
        play_rate_hz = default_play_rate_hz;
        data_key = new_id;
      },
      record s { fifo_data = emplace new_id (spread new_length (data_of e s)) s.fifo_data },
    )

-- A call gives a stream or nullptr, or it goes through nullptr or out of bounds; `out_of_fuel` is no
-- result.
pub data Outcome : Type 0 where
  stream : EffectStream → Outcome
  null_pointer undefined out_of_fuel : Outcome

abbrev pub cached : ℕ → EffectStream → Store → Outcome × Store
cached id e s = (stream e, record s { streams = emplace id e s.streams })

-- What follows on the call for the click effect.
unfoldable pub from_click : ℕ → Outcome × Store → Outcome × Store
unfolding duplicate_effect
from_click id (stream e, s) = elim (duplicate_effect e id s) [
  | none ↦ (undefined, s)
  | some r ↦ cached id r.0 r.1
]
from_click id (null_pointer, s) = (undefined, s)
from_click id (undefined, s) = (undefined, s)
from_click id (out_of_fuel, s) = (out_of_fuel, s)

module _ (click double_click : ℕ) where
  -- A call, given the result of the call for the click effect.
  unfoldable pub look_up : Files → ℕ → Store → Outcome × Store → Outcome × Store
  unfolding read_effect_stream_from_file from_click
  look_up files id s click_result = elim (find id s.streams) [
    | some e ↦ (stream e, s)
    | none ↦ elim (read_effect_stream_from_file files id s) [
      | some r ↦ cached id r.0 r.1
      | none ↦
          if id == double_click
          then from_click id click_result
          else if not (id == click)
          then click_result
          else (null_pointer, s)
    ]
  ]

  unfoldable pub get_effect_stream : ℕ → Files → ℕ → Store → Outcome × Store
  unfolding look_up
  get_effect_stream zero files id s = (out_of_fuel, s)
  get_effect_stream (suc fuel) files id s =
      look_up files id s (get_effect_stream fuel files click s)
