-- ===== src/Keyboard/Cli/Words.antt =====
-- aidl/keyboard/keyboard_client.cpp: the words of its command line, as bytes.
use android_hardware_xiaomi.Common.{ℕ, List, [], ◌∷◌}

abbrev pub word_status : List ℕ
word_status = b's' ∷ b't' ∷ b'a' ∷ b't' ∷ b'u' ∷ b's' ∷ []

abbrev pub word_version : List ℕ
word_version = b'v' ∷ b'e' ∷ b'r' ∷ b's' ∷ b'i' ∷ b'o' ∷ b'n' ∷ []

abbrev pub word_hall : List ℕ
word_hall = b'h' ∷ b'a' ∷ b'l' ∷ b'l' ∷ []

abbrev pub word_identity : List ℕ
word_identity = b'i' ∷ b'd' ∷ b'e' ∷ b'n' ∷ b't' ∷ b'i' ∷ b't' ∷ b'y' ∷ []

abbrev pub word_gsensor : List ℕ
word_gsensor = b'g' ∷ b's' ∷ b'e' ∷ b'n' ∷ b's' ∷ b'o' ∷ b'r' ∷ []

abbrev pub word_touchpad : List ℕ
word_touchpad = b't' ∷ b'o' ∷ b'u' ∷ b'c' ∷ b'h' ∷ b'p' ∷ b'a' ∷ b'd' ∷ []

abbrev pub word_backlight : List ℕ
word_backlight = b'b' ∷ b'a' ∷ b'c' ∷ b'k' ∷ b'l' ∷ b'i' ∷ b'g' ∷ b'h' ∷ b't' ∷ []

abbrev pub word_power : List ℕ
word_power = b'p' ∷ b'o' ∷ b'w' ∷ b'e' ∷ b'r' ∷ []

abbrev pub word_caps : List ℕ
word_caps = b'c' ∷ b'a' ∷ b'p' ∷ b's' ∷ []

abbrev pub word_mute : List ℕ
word_mute = b'm' ∷ b'u' ∷ b't' ∷ b'e' ∷ []

abbrev pub word_raw : List ℕ
word_raw = b'r' ∷ b'a' ∷ b'w' ∷ []

abbrev pub word_legacy : List ℕ
word_legacy = b'l' ∷ b'e' ∷ b'g' ∷ b'a' ∷ b'c' ∷ b'y' ∷ []

abbrev pub word_xm2022 : List ℕ
word_xm2022 = b'x' ∷ b'm' ∷ b'2' ∷ b'0' ∷ b'2' ∷ b'2' ∷ []
