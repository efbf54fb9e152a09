-- ===== src/Vibrator/Live.antt =====
-- What the data pointers of streams point to.
use android_hardware_xiaomi.Common.{
  ℕ, ◌*◌, ◌-◌, ◌^◌, ◌%◌, ◌≤◌, ◌≡◌, ◌≢◌, refl, sym, ap, subst, ◌∙◌, true, false, List, ◌++◌, Option,
  none, some, length, replicate, take, ltb, ◌==◌, bit_and, arith, ==_iff, Bool-cases, Option-cases,
  inl, inr, length-append, length-take, length-replicate,
}
use android_hardware_xiaomi.Vibrator.{
  EffectStream, Store, Files, find, emplace, read_effect_stream_from_file, data_of, stream_of,
  spread, default_play_rate_hz, primitive_mask, Outcome, stream, null_pointer, undefined,
  out_of_fuel, cached, from_click, look_up, get_effect_stream,
}
use mathlib.Core.Option.{some-injective, none-ne-some}
use android_hardware_xiaomi.Vibrator.Streams.{find-emplace}

abbrev pub Fifo : Type 0
Fifo = List (ℕ × List ℕ)

-- The data that a stream points to is there, and as long as the stream says.
abbrev pub Live : EffectStream → Fifo → Type 0
Live e fifo = (d : List ℕ) × (find e.data_key fifo ≡ some d) × (length d ≡ e.stream_length)

abbrev pub EntryOf : Option EffectStream → ℕ → Fifo → Type 0
EntryOf none k fifo = find k fifo ≡ none
EntryOf (some e) k fifo = (e.data_key ≡ k) × Live e fifo

-- What the maps hold under a key: nothing, or a stream and its data.
abbrev pub Entry : ℕ → Store → Type 0
Entry k s = EntryOf (find k s.streams) k s.fifo_data

abbrev pub LiveOutcome : Outcome → Store → Type 0
LiveOutcome (stream e) s = Live e s.fifo_data
LiveOutcome null_pointer s = Unit
LiveOutcome undefined s = Unit
LiveOutcome out_of_fuel s = Unit

still :
    (o : Option EffectStream) (k : ℕ) (old new : Fifo)
    → EntryOf o k old
    → find k new ≡ find k old
    → EntryOf o k new
still none k old new entry f = f ∙ entry
still (some e) k old new (same, (d, live, long)) f =
    let kept : find e.data_key new ≡ some d =
      ap (λ (j : ℕ). find j new) same ∙ f ∙ sym (ap (λ (j : ℕ). find j old) same) ∙ live in
    (same, (d, kept, long))

abbrev with_data : ℕ → List ℕ → Store → Store
with_data id d s = record s { fifo_data = emplace id d s.fifo_data }

new_data : (id : ℕ) (s : Store) → find id s.streams ≡ none → Entry id s → find id s.fifo_data ≡ none
new_data id s new entry = subst (λ (o : Option EffectStream). EntryOf o id s.fifo_data) new entry

cached-Live :
    (id : ℕ) (e : EffectStream) (d : List ℕ) (fifo : Fifo)
    → find id fifo ≡ none
    → e.data_key ≡ id
    → length d ≡ e.stream_length
    → Live e (emplace id d fifo)
cached-Live id e d fifo free key long =
    let same : (id == id) ≡ true = ground arith in
    let there : find id (emplace id d fifo) ≡ some d =
      find-emplace id id d fifo free ∙ (rw same refl) in
    (d, ap (λ (j : ℕ). find j (emplace id d fifo)) key ∙ there, long)

cached-Entry :
    (id : ℕ) (e : EffectStream) (d : List ℕ) (s : Store)
    → ((k : ℕ) → Entry k s)
    → find id s.streams ≡ none
    → e.data_key ≡ id
    → length d ≡ e.stream_length
    → (k : ℕ) → Entry k (cached id e (with_data id d s)).1
cached-Entry id e d s entries new key long k =
    let free = new_data id s new (entries id) in
    let found = find-emplace k id e s.streams new in
    let bytes = find-emplace k id d s.fifo_data free in
    let t = emplace id d s.fifo_data in
    elim (Bool-cases (id == k)) [
      | inl same ↦
          let named : id ≡ k = ground arith in
          let here : find k (emplace id e s.streams) ≡ some e = found ∙ (rw same refl) in
          subst (λ (o : Option EffectStream). EntryOf o k t) (sym here)
            (key ∙ named, cached-Live id e d s.fifo_data free key long)
      | inr other ↦
          let here : find k (emplace id e s.streams) ≡ find k s.streams = found ∙ (rw other refl) in
          let kept : find k t ≡ find k s.fifo_data = bytes ∙ (rw other refl) in
          subst (λ (o : Option EffectStream). EntryOf o k t) (sym here)
            (still (find k s.streams) k s.fifo_data t (entries k) kept)
    ]

-- What a call leaves: streams with their data, and a stream that is live.
abbrev pub Sound : Outcome × Store → ℕ → Type 0
Sound r k = Entry k r.1 × LiveOutcome r.0 r.1

cached-Sound :
    (id : ℕ) (e : EffectStream) (d : List ℕ) (s : Store)
    → ((k : ℕ) → Entry k s)
    → find id s.streams ≡ none
    → e.data_key ≡ id
    → length d ≡ e.stream_length
    → (k : ℕ) → Sound (cached id e (with_data id d s)) k
cached-Sound id e d s entries new key long k = (
  cached-Entry id e d s entries new key long k,
  cached-Live id e d s.fifo_data (new_data id s new (entries id)) key long,
)

length-spread : (n : ℕ) (bytes : List ℕ) → length bytes ≤ n → length (spread n bytes) ≡ n
length-spread n bytes fits =
    let front = take (n - length bytes) (bytes ++ replicate n 0) in
    let whole = length-append front bytes in
    let first = length-take (n - length bytes) (bytes ++ replicate n 0) in
    let padded = length-append bytes (replicate n 0) in
    let zeros = length-replicate {A = ℕ} n 0 in omega (arith, whole, first, padded, zeros)

from_click-Sound :
    (id : ℕ) (r : Outcome × Store)
    → ((k : ℕ) → Sound r k)
    → find id r.1.streams ≡ none
    → (k : ℕ) → Sound (from_click id r) k
unfolding from_click
from_click-Sound id (null_pointer, s) sound new k = ((sound k).0, tt)
from_click-Sound id (undefined, s) sound new k = ((sound k).0, tt)
from_click-Sound id (out_of_fuel, s) sound new k = ((sound k).0, tt)
from_click-Sound id (stream e, s) sound new k =
    let n = e.stream_length * 4 % 2 ^ 32 in
    let (d, live, long) = (sound k).1 in
    let new_stream : EffectStream = record {
      effect_id = id;
      stream_length = n;
      play_rate_hz = default_play_rate_hz;
      data_key = id;
    } in
    let entries : (j : ℕ) → Entry j s = λ j. (sound j).0 in
    elim (Bool-cases (ltb n e.stream_length)) [
      | inl small ↦ rw (from_click, small) ((sound k).0, tt)
      | inr room ↦
          let found : data_of e s ≡ d = rw (data_of, live) refl in
          let not_small : e.stream_length ≤ n = ground arith in
          let long_enough : length (data_of e s) ≤ n =
            omega (arith, ap (λ (l : List ℕ). length l) found, long, not_small) in
          rw (from_click, room)
            (cached-Sound id new_stream (spread n (data_of e s)) s entries new refl
              (length-spread n (data_of e s) long_enough) k)
    ]

stream_of-Sound :
    (id : ℕ) (s : Store) (content : Option (List ℕ)) (r : EffectStream × Store)
    → ((k : ℕ) → Entry k s)
    → find id s.streams ≡ none
    → stream_of id s content ≡ some r
    → (k : ℕ) → Sound (cached id r.0 r.1) k
stream_of-Sound id s none r entries new h k = absurd (none-ne-some r h)
stream_of-Sound id s (some content) r entries new h k =
    let bytes = take (length content % 2 ^ 32) content in
    let e : EffectStream = record {
      effect_id = bit_and id (2 ^ 32 - 1 - primitive_mask);
      stream_length = length bytes;
      play_rate_hz = default_play_rate_hz;
      data_key = id;
    } in
    subst (λ (q : EffectStream × Store). Sound (cached id q.0 q.1) k) (some-injective _ r h)
      (cached-Sound id e bytes s entries new refl refl k)

-- A file that is read changes no stream.
stream_of-streams :
    (id : ℕ) (s : Store) (content : Option (List ℕ)) (r : EffectStream × Store)
    → stream_of id s content ≡ some r
    → r.1.streams ≡ s.streams
stream_of-streams id s none r h = absurd (none-ne-some r h)
stream_of-streams id s (some content) r h =
    sym (ap (λ (q : EffectStream × Store). q.1.streams) (some-injective _ r h))

stream-Live :
    (id : ℕ) (e : EffectStream) (s : Store)
    → find id s.streams ≡ some e
    → Entry id s
    → Live e s.fifo_data
stream-Live id e s old entry =
    (subst (λ (o : Option EffectStream). EntryOf o id s.fifo_data) old entry).1

module _ (click double_click : ℕ) (files : Files) (apart : click ≢ double_click) where
  -- The call for the click effect puts nothing under another key.
  click_frame :
      (id : ℕ) (s : Store) (r : Outcome × Store)
      → id ≢ click
      → find id s.streams ≡ none
      → find id (look_up click double_click files click s r).1.streams ≡ none
  unfolding look_up read_effect_stream_from_file
  click_frame id s r other new =
      let apart_test : (click == double_click) ≡ false = ground arith in
      let same : (click == click) ≡ true = ground arith in
      let differs : (click == id) ≡ false = ground arith in
      elim (Option-cases (find click s.streams)) [
        | inr (e, old) ↦ rw (look_up, old) new
        | inl free ↦ elim (Option-cases (read_effect_stream_from_file files click s)) [
          | inl missing ↦ rw (look_up, free, missing, apart_test, same) new
          | inr (q, readable) ↦
              let streams = stream_of-streams click s _ q readable in
              let free_still : find click q.1.streams ≡ none = ap (find click) streams ∙ free in
              rw (look_up, free, readable)
                (find-emplace id click q.0 q.1.streams free_still
                  ∙ (rw differs (ap (find id) streams ∙ new)))
        ]
      ]

  click-Sound :
      (s : Store) (r : Outcome × Store)
      → ((k : ℕ) → Entry k s)
      → (k : ℕ) → Sound (look_up click double_click files click s r) k
  unfolding look_up read_effect_stream_from_file
  click-Sound s r entries k =
      let apart_test : (click == double_click) ≡ false = ground arith in
      let same : (click == click) ≡ true = ground arith in
      elim (Option-cases (find click s.streams)) [
        | inr (e, old) ↦ rw (look_up, old) (entries k, stream-Live click e s old (entries click))
        | inl free ↦ elim (Option-cases (read_effect_stream_from_file files click s)) [
          | inl missing ↦ rw (look_up, free, missing, apart_test, same) (entries k, tt)
          | inr (q, readable) ↦
              rw (look_up, free, readable) (stream_of-Sound click s _ q entries free readable k)
        ]
      ]

  -- From maps in which every stream points to data as long as the stream says, a call leaves such
  -- maps, and the stream that it gives points to such data too, whatever the files hold. The
  -- click and the double click effect are two effects.
  pub get_effect_stream-Sound :
      (id : ℕ) (s : Store)
      → ((k : ℕ) → Entry k s)
      → (k : ℕ) → Sound (get_effect_stream click double_click 2 files id s) k
  unfolding get_effect_stream
  get_effect_stream-Sound id s entries k =
      let click_result = look_up click double_click files click s (out_of_fuel, s) in
      let click_sound = click-Sound s (out_of_fuel, s) entries in
      elim (Option-cases (find id s.streams)) [
        | inr (e, old) ↦ rw (look_up, old) (entries k, stream-Live id e s old (entries id))
        | inl free ↦ elim (Option-cases (read_effect_stream_from_file files id s)) [
          | inr (q, readable) ↦
              rw (look_up, free, readable) (stream_of-Sound id s _ q entries free readable k)
          | inl missing ↦ elim (Bool-cases (id == double_click)) [
            | inl double ↦
                let other : id ≢ click = λ e. apart (sym e ∙ (==_iff id double_click).0 double) in
                let fresh = click_frame id s (out_of_fuel, s) other free in
                rw (look_up, free, missing, double)
                  (from_click-Sound id click_result click_sound fresh k)
            | inr single ↦ elim (Bool-cases (id == click)) [
              | inl is_click ↦ rw (look_up, free, missing, single, is_click) (entries k, tt)
              | inr falls_back ↦ rw (look_up, free, missing, single, falls_back) (click_sound k)
            ]
          ]
        ]
      ]
