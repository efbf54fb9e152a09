-- ===== src/Keyboard/Controller/QueryLoop.antt =====
-- aidl/keyboard/KeyboardController.cpp, one round of queryLoop. The waits are left out; both
-- isOpen() calls of a round see the same device.
use android_hardware_xiaomi.Common.{
  ℕ, ◌+◌, ◌-◌, ◌%◌, ◌^◌, Bool, false, ◌&&◌, ◌||◌, not, List, [], ◌∷◌, ◌++◌, replicate, ltb, ◌==◌,
  if◌then◌else◌,
}
use android_hardware_xiaomi.Keyboard.Frame.{
  make_pogo_status_query, make_hall_query, make_gsensor_query, make_keyboard_version_query,
  make_mcu_version_query, make_keyboard_identity_query,
}
use android_hardware_xiaomi.Keyboard.Controller.{
  Controller, Env, Action, send_frame, Step, input_hall_fresh, protocol_hall_fresh, status_timeout,
  update_input_gate,
}
use android_hardware_xiaomi.Keyboard.Controller.Handlers.{forget_device, disconnected}

-- The locals of the loop; the count is a uint32_t.
pub record Progress : Type 0 where
  pub query_count : ℕ
  pub identity_queried : Bool

abbrev pub fresh_progress : Progress
fresh_progress = record { query_count = 0; identity_queried = false }

-- The queries of a round with a connected keyboard.
unfoldable pub connected_queries : Progress → List (List ℕ)
connected_queries p =
    (if p.query_count % 5 == 0 then make_gsensor_query ∷ [] else [])
    ++ (if p.query_count % 15 == 0
        then make_keyboard_version_query ∷ make_mcu_version_query ∷ []
        else [])
    ++ (if p.identity_queried then [] else make_keyboard_identity_query (replicate 6 0) ∷ [])

abbrev sends : List (List ℕ) → List Action
sends [] = []
sends (f ∷ fs) = send_frame f ∷ sends fs

unfoldable pub next_progress : Env → Progress → Progress
next_progress env p = record {
  query_count = (p.query_count + 1) % 2 ^ 32;
  identity_queried = p.identity_queried || env.send (make_keyboard_identity_query (replicate 6 0));
}

unfoldable pub status_timed_out : ℕ → Controller → Bool
status_timed_out now c =
    c.have_status && c.status.connected && ltb status_timeout (now - c.last_status_update)

unfoldable pub hall_timed_out : ℕ → Controller → Bool
hall_timed_out now c =
    c.have_status
    && c.status.connected
    && (c.have_input_hall_state || c.have_protocol_hall_state)
    && not (input_hall_fresh now c)
    && not (protocol_hall_fresh now c)

-- What a timeout makes the controller forget.
unfoldable pub expire : ℕ → Controller → Controller
expire now c =
    let by_status = status_timed_out now c in
    let by_hall = hall_timed_out now c in
    record c {
      status = if by_status then disconnected c.status else c.status;
      have_status = if by_status then false else c.have_status;
      have_input_hall_state = if by_hall then false else c.have_input_hall_state;
      have_protocol_hall_state = if by_hall then false else c.have_protocol_hall_state;
    }

-- The timeouts of a round, and the gate after them.
unfoldable pub check_timeouts : Env → Controller → Step
check_timeouts env c =
    if status_timed_out env.now c || hall_timed_out env.now c
    then update_input_gate env false false (expire env.now c)
    else (c, [])

unfoldable pub query_round : Env → Progress → Controller → Controller × Progress × List Action
query_round env p c =
    let sleeping = c.have_sleep_state && c.keyboard_sleeping in
    let connected = c.have_status && c.status.connected in
    let checked = check_timeouts env c in
    let shut = update_input_gate env false false (forget_device c) in
    if env.device_open && not sleeping
    then (
      checked.0,
      (if connected then next_progress env p else fresh_progress),
      sends (
            make_pogo_status_query
            ∷ make_hall_query
            ∷ (if connected then connected_queries p else []))
          ++ checked.1,
    )
    else if not env.device_open
    then (shut.0, fresh_progress, shut.1)
    else (c, p, [])

-- The rounds of the loop while no other handler runs, each in an environment of its own.
unfoldable pub query_rounds : List Env → Progress → Controller → Controller × Progress
query_rounds [] p c = (c, p)
query_rounds (env ∷ envs) p c = let r = query_round env p c in query_rounds envs r.1 r.0
