-- ===== src/Fingerprint/Udfps.antt =====
-- fingerprint/UdfpsHandler.cpp and UdfpsExtension.cpp: the handler of the device's own library,
-- and the layer order of a sensor under the display. What dlopen and dlsym give is an argument;
-- the bit of a pressed layer is a constant of the display's headers, a parameter.
use android_hardware_xiaomi.Common.{ℕ, ◌≡◌, refl, Bool, Option, none, some, bit_or, if◌then◌else◌}

-- The factory, and how many references to the library are left.
unfoldable pub get_udfps_handler_factory : Option (Option ℕ) → Option ℕ × ℕ
get_udfps_handler_factory none = (none, 0)
get_udfps_handler_factory (some none) = (none, 0)
get_udfps_handler_factory (some (some factory)) = (some factory, 1)

unfoldable pub get_udfps_dim_z_order : ℕ → ℕ
get_udfps_dim_z_order z = z

unfoldable pub get_udfps_z_order : ℕ → ℕ → Bool → ℕ
get_udfps_z_order pressed z touched = if touched then bit_or z pressed else z

unfoldable pub get_udfps_usage_bits : ℕ → Bool → ℕ
get_udfps_usage_bits usage_bits touched = usage_bits

abbrev pub is_given : Option ℕ → ℕ
is_given none = 0
is_given (some factory) = 1

-- The library stays loaded just while its factory is given out: one without a factory is closed.
pub get_udfps_handler_factory_balanced :
    (library : Option (Option ℕ))
    → (get_udfps_handler_factory library).1 ≡ is_given (get_udfps_handler_factory library).0
unfolding get_udfps_handler_factory
get_udfps_handler_factory_balanced none = refl
get_udfps_handler_factory_balanced (some none) = refl
get_udfps_handler_factory_balanced (some (some factory)) = refl
