-- ===== src/Fingerprint/Session/Messages.antt =====
-- What the vendor library's messages come to for the framework.
use android_hardware_xiaomi.Common.{
  ℕ, suc, ◌≡◌, refl, false, List, [], ◌∷◌, ◌++◌, length, arith, ◌==◌, append_assoc,
}
use android_hardware_xiaomi.Fingerprint.Token.{Endian}
use android_hardware_xiaomi.Fingerprint.Session.{
  Session, Step, ◌>>=◌, on_enrollments_enumerated, Clock, Message, template_enumerating, notify,
}

-- The messages of one enumeration: each finger with the number of those that follow it.
abbrev pub enumeration : List ℕ → List Message
enumeration [] = []
enumeration (fid ∷ fids) = template_enumerating fid (length fids) ∷ enumeration fids

unfoldable pub notify_all : Clock → Endian → List Message → Session → Step
notify_all clock endian [] s = (s, [])
notify_all clock endian (m ∷ ms) s = notify clock endian m s >>= notify_all clock endian ms

not_last : (n : ℕ) → (suc n == 0) ≡ false
not_last n = ground arith

enumerated_from :
    (clock : Clock) (endian : Endian) (fid : ℕ) (fids : List ℕ) (s : Session)
    → notify_all clock endian (enumeration (fid ∷ fids)) s ≡ (
      record s { enrollments = [] },
      on_enrollments_enumerated (s.enrollments ++ fid ∷ fids) ∷ [],
    )
unfolding notify_all notify
enumerated_from clock endian fid [] s = refl
enumerated_from clock endian fid (next ∷ fids) s = rw (not_last (length fids)) (
    rw (append_assoc s.enrollments (fid ∷ []) (next ∷ fids)) at (
      enumerated_from clock endian next fids
        (record s { enrollments = s.enrollments ++ fid ∷ [] })))

-- An enumeration that starts with nothing collected makes one call of onEnrollmentsEnumerated, with
-- every finger in the order of the messages, and leaves nothing collected for the next one.
pub enumeration_reported :
    (clock : Clock) (endian : Endian) (fid : ℕ) (fids : List ℕ) (s : Session)
    → s.enrollments ≡ []
    → notify_all clock endian (enumeration (fid ∷ fids)) s
      ≡ (s, on_enrollments_enumerated (fid ∷ fids) ∷ [])
enumeration_reported clock endian fid fids s none_yet =
    ground (arith, enumerated_from clock endian fid fids s)
