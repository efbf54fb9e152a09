-- ===== src/Fingerprint.antt =====
-- The fingerprint service (aidl/fingerprint): the lockout tracker, the translation of the vendor
-- library's codes and tokens, and the session that answers the framework.
pub mod Lockout
pub mod Codes
pub mod Token
pub mod Session
pub mod Hidl
pub mod Service
pub mod Props
pub mod Udfps
