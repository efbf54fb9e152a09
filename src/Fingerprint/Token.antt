-- ===== src/Fingerprint/Token.antt =====
-- aidl/fingerprint/include/Legacy2Aidl.h: authentication tokens between the framework's record and
-- the vendor library's packed struct. The byte order conversions are libc's: a parameter.
use android_hardware_xiaomi.Common.{
  ℕ, ◌≡◌, refl, List, [], ◌∷◌, ◌++◌, length, drop, arith, append-nil,
}

pub record HardwareAuthToken : Type 0 where
  pub challenge : ℕ
  pub user_id : ℕ
  pub authenticator_id : ℕ
  pub authenticator_type : ℕ
  pub milli_seconds : ℕ
  pub mac : List ℕ

pub record HwAuthToken : Type 0 where
  pub challenge : ℕ
  pub user_id : ℕ
  pub authenticator_id : ℕ
  pub authenticator_type : ℕ
  pub timestamp : ℕ
  pub hmac : List ℕ

-- <endian.h>: each conversion to network order has an inverse.
pub record Endian : Type 0 where
  pub htobe32 : ℕ → ℕ
  pub be32toh : ℕ → ℕ
  pub htobe64 : ℕ → ℕ
  pub be64toh : ℕ → ℕ
  pub be32_inverse : (x : ℕ) → be32toh (htobe32 x) ≡ x
  pub be64_inverse : (x : ℕ) → be64toh (htobe64 x) ≡ x

-- std::copy over the front of an array that is long enough.
unfoldable pub copy_over : List ℕ → List ℕ → List ℕ
copy_over array bytes = bytes ++ drop (length bytes) array

unfoldable pub to_legacy : Endian → HardwareAuthToken → HwAuthToken → HwAuthToken
unfolding copy_over
to_legacy e token hat = record {
  challenge = token.challenge;
  user_id = token.user_id;
  authenticator_id = token.authenticator_id;
  authenticator_type = e.htobe32 token.authenticator_type;
  timestamp = e.htobe64 token.milli_seconds;
  hmac = copy_over hat.hmac token.mac;
}

-- The bytes are inserted before those that the token holds.
unfoldable pub from_legacy : Endian → HwAuthToken → HardwareAuthToken → HardwareAuthToken
from_legacy e hat token = record {
  challenge = hat.challenge;
  user_id = hat.user_id;
  authenticator_id = hat.authenticator_id;
  authenticator_type = e.be32toh hat.authenticator_type;
  milli_seconds = e.be64toh hat.timestamp;
  mac = hat.hmac ++ token.mac;
}

drop_all : (bytes array : List ℕ) → length array ≡ length bytes → drop (length bytes) array ≡ []
drop_all [] [] h = refl
drop_all [] (a ∷ array) h = absurd (omega arith)
drop_all (b ∷ bytes) [] h = refl
drop_all (b ∷ bytes) (a ∷ array) h = drop_all bytes array (omega arith)

-- A token whose MAC is as long as the struct's field survives the way to the vendor's library and
-- back into a token with an empty MAC, whatever the struct and the token held before.
pub from_legacy-to_legacy :
    (e : Endian) (token old : HardwareAuthToken) (hat : HwAuthToken)
    → length hat.hmac ≡ length token.mac
    → old.mac ≡ []
    → from_legacy e (to_legacy e token hat) old ≡ token
unfolding from_legacy to_legacy
from_legacy-to_legacy e token old hat size empty = ground (
  arith,
  e.be32_inverse token.authenticator_type,
  e.be64_inverse token.milli_seconds,
  drop_all token.mac hat.hmac size,
  append-nil token.mac,
  append-nil (token.mac ++ []),
)
