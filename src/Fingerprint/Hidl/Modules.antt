-- ===== src/Fingerprint/Hidl/Modules.antt =====
-- hidl/biometrics/fingerprint/BiometricsFingerprint.cpp, openHal and the constructor: the choice of
-- the vendor's module. What the calls of the module's libraries give is a function of the class name.
-- The constructor does not set mIsUdfps unless a module opens: its value before is an argument.
use android_hardware_xiaomi.Common.{
  ℕ, ◌≡◌, refl, ap, ◌⊎◌, inl, inr, Bool, true, false, ◌&&◌, not, List, [], ◌∷◌, ◌++◌, Option, none,
  some, Bool-cases, if◌then◌else◌,
}

-- What openHal meets, in its order.
pub record Opening : Type 0 where
  pub module_loads : Bool
  pub module_given : Bool
  pub has_open : Bool
  pub opens : Bool
  pub version_fits : Bool
  pub takes_notify : Bool

unfoldable pub open_hal : Opening → Bool
open_hal o =
    if not o.module_loads
    then false
    else if not o.module_given
    then false
    else if not o.has_open
    then false
    else if not o.opens
    then false
    else if not o.version_fits
    then false
    else o.takes_notify

pub record Module : Type 0 where
  pub class_name : List ℕ
  pub is_udfps : Bool

abbrev goodix : List ℕ
goodix = b'g' ∷ b'o' ∷ b'o' ∷ b'd' ∷ b'i' ∷ b'x' ∷ []

abbrev fpc : List ℕ
fpc = b'f' ∷ b'p' ∷ b'c' ∷ []

abbrev fod : List ℕ
fod = b'_' ∷ b'f' ∷ b'o' ∷ b'd' ∷ []

abbrev row : List ℕ → Bool → Module
row name udfps = record { class_name = name; is_udfps = udfps }

unfoldable pub modules : List Module
modules =
    row (b'f' ∷ b'o' ∷ b'r' ∷ b't' ∷ b's' ∷ b'e' ∷ b'n' ∷ b's' ∷ b'e' ∷ []) false
    ∷ row fpc false
    ∷ row (fpc ++ fod) true
    ∷ row goodix false
    ∷ row (goodix ++ fod) true
    ∷ row (goodix ++ fod ++ b'6' ∷ []) true
    ∷ row (b's' ∷ b'i' ∷ b'l' ∷ b'e' ∷ b'a' ∷ b'd' ∷ []) false
    ∷ row (b's' ∷ b'y' ∷ b'n' ∷ b'a' ∷ []) true
    ∷ []

-- What the constructor leaves: the module that is open, mIsUdfps, whether there is a handler, and the
-- values of the two properties that it set.
pub record Opened : Type 0 where
  pub device : Option (List ℕ)
  pub is_udfps : Bool
  pub has_handler : Bool
  pub vendor : List ℕ
  pub udfps_property : Bool

abbrev none_word : List ℕ
none_word = b'n' ∷ b'o' ∷ b'n' ∷ b'e' ∷ []

-- `factory` is what the handler's library gives: no factory, or one that makes a handler or not.
abbrev with_udfps : Option Bool → Option (List ℕ) → List ℕ → Bool → Opened
with_udfps factory device vendor udfps = record {
  device = device;
  is_udfps = udfps;
  has_handler = elim factory [ none ↦ false | some made ↦ udfps && made ];
  vendor = vendor;
  udfps_property = udfps;
}

-- The loop over the modules from some place on, and what follows it.
unfoldable pub open_modules : (List ℕ → Opening) → Option Bool → Bool → List Module → Opened
unfolding open_hal
open_modules opening factory before [] = with_udfps factory none none_word before
open_modules opening factory before (m ∷ ms) =
    if open_hal (opening m.class_name)
    then with_udfps factory (some m.class_name) m.class_name m.is_udfps
    else open_modules opening factory before ms

unfoldable pub new_fingerprint : (List ℕ → Opening) → Option Bool → Bool → Opened
unfolding open_modules modules
new_fingerprint opening factory before = open_modules opening factory before modules

abbrev pub AllFail : (List ℕ → Opening) → List Module → Type 0
AllFail opening [] = Unit
AllFail opening (m ∷ ms) = (open_hal (opening m.class_name) ≡ false) × AllFail opening ms

-- The first module of the list that opens, with those before it and those behind it.
abbrev pub First : (List ℕ → Opening) → List Module → Opened → Type 0
First opening ms r =
    (before : List Module) × (m : Module) × (behind : List Module) × (ms ≡ before ++ m ∷ behind)
    × AllFail opening before
    × (open_hal (opening m.class_name) ≡ true)
    × (r.device ≡ some m.class_name)
    × (r.vendor ≡ m.class_name)
    × (r.is_udfps ≡ m.is_udfps)

open_modules-First :
    (opening : List ℕ → Opening) (factory : Option Bool) (before : Bool) (ms : List Module)
    → let r = open_modules opening factory before ms in
      (AllFail opening ms × (r.device ≡ none) × (r.is_udfps ≡ before)) ⊎ First opening ms r
unfolding open_modules
open_modules-First opening factory before [] = inl (tt, refl, refl)
open_modules-First opening factory before (m ∷ ms) =
    elim (Bool-cases (open_hal (opening m.class_name))) [
      | inl opens ↦ rw opens (inr ([], m, ms, refl, tt, opens, refl, refl, refl))
      | inr fails ↦ rw fails (elim (open_modules-First opening factory before ms) [
        | inl (all, none_open, same) ↦ inl ((refl, all), none_open, same)
        | inr (passed, n, behind, split, failed, opens, device, vendor, udfps) ↦ inr (
          m ∷ passed,
          n,
          behind,
          ap (λ (l : List Module). m ∷ l) split,
          (fails, failed),
          opens,
          device,
          vendor,
          udfps,
        )
      ])
    ]

-- The constructor opens the first module of its list that opens, and reports that module's name and
-- whether it is under the display; if no module opens there is no device, and mIsUdfps is what it was
-- before.
pub new_fingerprint-First :
    (opening : List ℕ → Opening) (factory : Option Bool) (before : Bool)
    → let r = new_fingerprint opening factory before in
      (AllFail opening modules × (r.device ≡ none) × (r.is_udfps ≡ before))
      ⊎ First opening modules r
unfolding new_fingerprint
new_fingerprint-First opening factory before = open_modules-First opening factory before modules
