-- ===== src/Fingerprint/Hidl/Paths.antt =====
-- The store paths that reach the vendor's device. The code compares the text of a path only, and so
-- do the statements here: a path can name the same directory by another text.
use android_hardware_xiaomi.Common.{
  ℕ, ◌≤◌, ◌<◌, ◌≡◌, refl, Bool, true, false, ◌||◌, List, [], ◌∷◌, length, length-drop, arith, leb,
  ◌==◌, Bool-cases, inl, inr,
}
use android_hardware_xiaomi.Common.Int.{ℤ}
use android_hardware_xiaomi.Fingerprint.Hidl.{
  Call, set_device_group, users_prefix, starts_with, store_path, set_active_group,
}

-- The paths that some calls hand to the device.
abbrev pub device_paths : List Call → List (List ℕ)
device_paths [] = []
device_paths (call ∷ calls) = elim call [
  | set_device_group gid path ↦ path ∷ device_paths calls
  | _ ↦ device_paths calls
]

abbrev pub Allowed : ℕ → (List ℕ → Bool) → List (List ℕ) → Type 0
Allowed path_max writable [] = Unit
Allowed path_max writable (path ∷ paths) =
    (starts_with path users_prefix ≡ false)
    × (writable path ≡ true)
    × (length path < path_max)
    × Allowed path_max writable paths

store_path-starts_with : (path : List ℕ) → starts_with (store_path path) users_prefix ≡ false
unfolding store_path
store_path-starts_with path = elim (Bool-cases (starts_with path users_prefix)) [
  | inl under ↦ rw under refl
  | inr other ↦ rw (other, other)
]

length-starts_with :
    (path prefix : List ℕ) → starts_with path prefix ≡ true → length prefix ≤ length path
length-starts_with path [] s = omega arith
length-starts_with [] (b ∷ prefix) s = ground arith
length-starts_with (a ∷ path) (b ∷ prefix) s =
    let rest = length-starts_with path prefix in ground arith

length-store_path : (path : List ℕ) → length (store_path path) ≤ length path
unfolding store_path
length-store_path path =
    let long = length-starts_with path users_prefix in
    let dropped = length-drop 19 path in ground arith

-- Whatever the framework asks for, the vendor's device is only given store paths that are writable,
-- shorter than PATH_MAX and whose text does not start with "/data/system/users/".
pub set_active_group-Allowed :
    (path_max : ℕ) (writable : List ℕ → Bool) (answer : ℤ) (gid : ℕ) (path : List ℕ)
    → Allowed path_max writable
        (device_paths (set_active_group path_max writable answer gid path).0)
unfolding set_active_group
set_active_group-Allowed path_max writable answer gid path =
    let clean = store_path-starts_with path in
    let short = length-store_path path in
    elim (Bool-cases (leb path_max (length path) || length path == 0)) [
      | inl bad ↦ rw bad tt
      | inr fits ↦ elim (Bool-cases (writable (store_path path))) [
        | inl opens ↦
            let room : length (store_path path) < path_max = ground arith in
            rw (fits, opens) (clean, opens, room, tt)
        | inr refused ↦ rw (fits, refused) tt
      ]
    ]
