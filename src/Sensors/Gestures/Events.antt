-- ===== src/Sensors/Gestures/Events.antt =====
-- The events of the gesture sensors, and what their enable files hold.
use android_hardware_xiaomi.Common.{◌≡◌, ◌∙◌, refl, Bool, true, false, List, [], ◌∷◌, arith}
use android_hardware_xiaomi.Common.Int.{ℤ, pos}
use android_hardware_xiaomi.Sensors.OneShot.{
  Scan, seek_failed, read_failed, no_value, one_value, two_values, three_values, Position,
}
use android_hardware_xiaomi.Sensors.Gestures.{
  udfps, scanned, read_fd, fill_event_data, EnableStream, write_enable,
}

-- The coordinates of a text that names three values; none are reported with fewer.
abbrev pub position_of : Scan → ℤ × ℤ
position_of (three_values x y state) = (x, y)
position_of scan = (pos 0, pos 0)

-- Over the readings before, an UdfpsSensor's coordinates.
unfoldable pub readings : List Scan → Position → Position
readings [] p = p
readings (scan ∷ scans) p = readings scans (read_fd (scanned scan) p).0

read_udfps_position :
    (scan : Scan) (p : Position)
    → (read_fd (scanned scan) p).1 ≡ true
    → fill_event_data udfps (read_fd (scanned scan) p).0 ≡ position_of scan
unfolding read_fd fill_event_data
read_udfps_position seek_failed p detected = cc
read_udfps_position read_failed p detected = cc
read_udfps_position no_value p detected = cc
read_udfps_position (one_value state) p detected = refl
read_udfps_position (two_values x y) p detected = cc
read_udfps_position (three_values x y state) p detected = refl

-- A touch that the fingerprint sensor's file reports gives an event with the coordinates of the
-- very text that was read, or zeros if it names the state only, never those of an earlier
-- reading.
pub udfps_event_current :
    (scans : List Scan) (scan : Scan) (p : Position)
    → let before = readings scans p in
      (read_fd (scanned scan) before).1 ≡ true
      → fill_event_data udfps (read_fd (scanned scan) before).0 ≡ position_of scan
udfps_event_current scans scan p detected = read_udfps_position scan (readings scans p) detected

-- A request of the enable file: whether it would open, whether the write succeeds, and the value.
pub record Request : Type 0 where
  pub opens : Bool
  pub write_ok : Bool
  pub enable : Bool

unfoldable pub requests : List Request → EnableStream → EnableStream
requests [] s = s
requests (r ∷ rs) s = requests rs (write_enable r.opens r.write_ok r.enable s)

-- Once the enable file did not open, or a write to it failed, no later request reaches it: the
-- file keeps what it holds over all requests that follow, although they would succeed.
pub failed_stream_stays :
    (rs : List Request) (s : EnableStream)
    → s.tried ≡ true
    → s.good ≡ false
    → (requests rs s).file ≡ s.file
unfolding requests write_enable
failed_stream_stays [] s tried bad = refl
failed_stream_stays (r ∷ rs) s tried bad =
    failed_stream_stays rs (write_enable r.opens r.write_ok r.enable s) (ground arith)
      (ground arith)
    ∙ ground arith
