-- ===== src/Vibrator/Streams.antt =====
-- The cache of effect streams: the calls end, what a stream points to stays, and a stream that was
-- given is given again.
use android_hardware_xiaomi.Common.{
  ℕ, suc, ◌≡◌, ◌≢◌, refl, ap, List, none, some, ◌==◌, if◌then◌else◌, arith,
}
use android_hardware_xiaomi.Vibrator.{
  Store, Files, find, emplace, Outcome, stream, null_pointer, undefined, out_of_fuel, from_click,
  look_up, get_effect_stream,
}

pub find-emplace {ℓ} :
    {A : Type ℓ} (k j : ℕ) (a : A) (entries : List (ℕ × A))
    → find j entries ≡ none
    → find k (emplace j a entries) ≡ (if j == k then some a else find k entries)
find-emplace k j a entries new = rw (emplace, new) refl

module _ (click double_click : ℕ) (files : Files) (apart : click ≢ double_click) where
  -- The call for the click effect does not go by the result of another.
  click_alone :
      (s : Store) (r q : Outcome × Store)
      → (look_up click double_click files click s r ≡ look_up click double_click files click s q)
        × ((look_up click double_click files click s r).0 ≢ out_of_fuel)
  unfolding look_up
  click_alone s r q = ground arith

  from_click_ends :
      (id : ℕ) (r : Outcome × Store) → r.0 ≢ out_of_fuel → (from_click id r).0 ≢ out_of_fuel
  unfolding from_click
  from_click_ends id (stream e, s) h = ground arith
  from_click_ends id (null_pointer, s) h = ground arith
  from_click_ends id (undefined, s) h = ground arith
  from_click_ends id (out_of_fuel, s) h = absurd (h refl)

  look_up_ends :
      (id : ℕ) (s : Store) (r : Outcome × Store)
      → r.0 ≢ out_of_fuel
      → (look_up click double_click files id s r).0 ≢ out_of_fuel
  unfolding look_up
  look_up_ends id s r h = let ends = from_click_ends id r h in ground arith

  -- Calls end: the recursion is no deeper than two calls, so that more fuel changes nothing and two
  -- units are always enough. The click and the double click effect are two effects.
  pub get_effect_stream_ends :
      (fuel id : ℕ) (s : Store)
      → ((get_effect_stream click double_click 2 files id s).0 ≢ out_of_fuel)
        × (get_effect_stream click double_click (suc (suc fuel)) files id s
            ≡ get_effect_stream click double_click 2 files id s)
  unfolding get_effect_stream
  get_effect_stream_ends fuel id s = (
    look_up_ends id s _ (click_alone s (out_of_fuel, s) (out_of_fuel, s)).1,
    ap (look_up click double_click files id s)
        (click_alone s (get_effect_stream click double_click fuel files click s)
          (out_of_fuel, s)).0,
  )
