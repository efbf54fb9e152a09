-- ===== src/TouchFeature/Events.antt =====
-- hidl/touchfeature/1.0/TouchFeature.cpp, readTouchEvent: the diagnostic events of a peer behind a
-- socket. What the socket's calls give is an argument; `socket` says whether one is held.
use android_hardware_xiaomi.Common.{
  ℕ, zero, suc, ◌≤◌, ◌≡◌, refl, Bool, true, false, ◌&&◌, not, List, [], ◌∷◌, length, take, Option,
  none, some, arith, min, ◌==◌, if◌then◌else◌,
}
use android_hardware_xiaomi.Common.Int.{ℤ, pos, negsuc}

abbrev pub event_size : ℕ
event_size = 1024

-- What the calls give: whether the peer hung up, whether a new socket connects, whether the request
-- is sent, and the reply's length and event buffer.
pub record Peer : Type 0 where
  pub hung_up : Bool
  pub connects : Bool
  pub sent : Bool
  pub reply : Option (ℤ × List ℕ)

-- connectTouchEventSocketLocked: whether a socket is held afterwards.
unfoldable pub connect_socket : Peer → Bool → Bool
connect_socket peer socket = if socket && not peer.hung_up then true else peer.connects

-- strnlen.
abbrev pub string_length : List ℕ → ℕ
string_length [] = 0
string_length (b ∷ bytes) = if b == 0 then 0 else suc (string_length bytes)

-- The text of a reply.
unfoldable pub event_text : ℤ × List ℕ → List ℕ
event_text (pos n, event) =
    let text = take event_size event in take (min n (string_length text)) text
event_text (negsuc n, event) = let text = take event_size event in take (string_length text) text

-- The event, and whether the socket is held afterwards.
unfoldable pub read_touch_event : Peer → Bool → List ℕ × Bool
unfolding connect_socket event_text
read_touch_event peer socket =
    if connect_socket peer socket
    then (elim peer.reply [
      | none ↦ ([], true)
      | some reply ↦ if peer.sent then (event_text reply, true) else ([], true)
    ])
    else ([], false)

abbrev pub has_no_zero : List ℕ → Bool
has_no_zero [] = true
has_no_zero (b ∷ bytes) = not (b == 0) && has_no_zero bytes

take-clean :
    (n : ℕ) (bytes : List ℕ)
    → n ≤ string_length bytes
    → (has_no_zero (take n bytes) ≡ true) × (length (take n bytes) ≡ n)
take-clean zero bytes h = (refl, refl)
take-clean (suc n) [] h = absurd (omega arith)
take-clean (suc n) (b ∷ bytes) h = let rest = take-clean n bytes in (ground arith, ground arith)

string_length-take : (n : ℕ) (bytes : List ℕ) → string_length (take n bytes) ≤ n
string_length-take zero bytes = omega arith
string_length-take (suc n) [] = omega arith
string_length-take (suc n) (b ∷ bytes) = let rest = string_length-take n bytes in ground arith

-- Whatever length and bytes the peer sends, the text that is returned is no longer than the buffer
-- and holds no zero byte, and a length that is not negative bounds it too.
pub event_text_bounds :
    (n : ℕ) (event : List ℕ)
    → (has_no_zero (event_text (pos n, event)) ≡ true)
      × (length (event_text (pos n, event)) ≤ n)
      × (length (event_text (pos n, event)) ≤ 1024)
      × (has_no_zero (event_text (negsuc n, event)) ≡ true)
      × (length (event_text (negsuc n, event)) ≤ 1024)
unfolding event_text
event_text_bounds n event =
    let text = take event_size event in
    let size = string_length-take event_size event in
    let some_ = take-clean (min n (string_length text)) text (omega arith) in
    let all = take-clean (string_length text) text (omega arith) in
    (
      some_.0,
      omega (arith, some_.1),
      omega (arith, some_.1, size),
      all.0,
      omega (arith, all.1, size),
    )
