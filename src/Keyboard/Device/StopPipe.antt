-- ===== src/Keyboard/Device/StopPipe.antt =====
-- aidl/keyboard/NanoappDevice.cpp, the pipe by which stop interrupts the reader's poll: start,
-- stop, waitForStop and drainStopSignal. `bytes` counts what is in the pipe, which the
-- constructor made or not (`stop_pipe`); reading an empty pipe gives EAGAIN, and writing one byte
-- to a pipe with room succeeds.
use android_hardware_xiaomi.Common.{
  ℕ, zero, suc, ◌+◌, ◌-◌, ◌≤◌, ◌<◌, ◌≡◌, refl, Bool, true, false, ◌&&◌, ◌||◌, not, List, [], ◌∷◌,
  Option, none, some, arith, ltb, ◌==◌, if◌then◌else◌, min,
}
use android_hardware_xiaomi.Keyboard.Device.{
  Device, ReadOutcome, polled, bytes_read, read_failed, again, start, stop, run_round, with_fd,
  after_poll, take_bytes,
}

pub record Reader : Type 0 where
  pub device : Device
  pub bytes : ℕ

unfoldable pub new_reader : Bool → Reader
new_reader piped = record {
  device = record { fd = none; stop_pipe = piped; started = false; stopping = false };
  bytes = 0;
}

-- The loop of drainStopSignal: it reads 16 bytes at a time until a read gives none.
unfoldable pub drain_loop : ℕ → ℕ → Option ℕ
drain_loop zero bytes = none
drain_loop (suc fuel) bytes =
    let rest = drain_loop fuel (bytes - min bytes 16) in if bytes == 0 then some 0 else rest

unfoldable pub drain_stop_signal : Reader → Reader
unfolding drain_loop
drain_stop_signal r =
    if r.device.stop_pipe
    then elim (drain_loop (suc r.bytes) r.bytes) [
      | none ↦ r
      | some left ↦ record r { bytes = left }
    ]
    else r

unfoldable pub start_reader : Reader → Reader
unfolding drain_stop_signal start
start_reader r =
    if r.device.started then r else record (drain_stop_signal r) { device = start r.device }

unfoldable pub stop_reader : Reader → Reader
unfolding stop
stop_reader r =
    if r.device.started
    then record r {
      device = stop r.device;
      bytes = if r.device.stop_pipe then r.bytes + 1 else r.bytes;
    }
    else r

-- waitForStop, by whether poll(2) succeeds.
unfoldable pub wait_for_stop : Bool → Reader → Bool
wait_for_stop poll_ok r =
    if not r.device.stop_pipe
    then r.device.stopping
    else r.device.stopping || (poll_ok && ltb 0 r.bytes)

-- The loop ends within as many rounds as there are bytes, and one, and leaves the pipe empty.
drain_loop_ends : (fuel bytes : ℕ) → bytes < fuel → drain_loop fuel bytes ≡ some 0
unfolding drain_loop
drain_loop_ends zero bytes h = elim h [ ]
drain_loop_ends (suc fuel) bytes h = ground (arith, drain_loop_ends fuel (bytes - min bytes 16))

pub data Call : Type 0 where
  starts stops : Call

unfoldable pub call : Call → Reader → Reader
unfolding start_reader stop_reader
call starts r = start_reader r
call stops r = stop_reader r

unfoldable pub calls : List Call → Reader → Reader
unfolding call
calls [] r = r
calls (c ∷ cs) r = calls cs (call c r)

-- A reader that runs has an empty pipe, and at most one byte waits in that of one that does not.
pub record Drained (r : Reader) : Type 0 where
  pub empty : (r.device.started && not (r.bytes == 0)) ≡ false
  pub running : (r.device.started && r.device.stopping) ≡ false
  pub bounded : r.bytes ≤ 1
  pub unpiped : (not r.device.stop_pipe && not (r.bytes == 0)) ≡ false

call-Drained : (c : Call) (r : Reader) → Drained r → Drained (call c r)
unfolding call start_reader stop_reader drain_stop_signal start stop
call-Drained starts r v =
    let drained = drain_loop_ends (suc r.bytes) r.bytes (omega arith) in ground arith
call-Drained stops r v = ground arith

calls-Drained : (cs : List Call) (r : Reader) → Drained r → Drained (calls cs r)
unfolding calls
calls-Drained [] r v = v
calls-Drained (c ∷ cs) r v = calls-Drained cs (call c r) (call-Drained c r v)

take_bytes_again : (d : Device) (f : ℕ) (read : ReadOutcome) → (take_bytes d f read).2 ≡ again
unfolding take_bytes
take_bytes_again d f (bytes_read []) = refl
take_bytes_again d f (bytes_read (b ∷ bs)) = refl
take_bytes_again d f (read_failed e) = ground arith

with_fd_again :
    (o : Option ℕ) (d : Device) (opened : Option ℕ) (broken readable : Bool) (read : ReadOutcome)
    → (with_fd o d (record { opened = opened; poll = polled false broken readable; read = read })).2
      ≡ again
unfolding with_fd after_poll
with_fd_again none d opened broken readable read = refl
with_fd_again (some f) d opened broken readable read =
    let rest = take_bytes_again (record d { fd = some f }) f read in ground arith

run_round_again :
    (d : Device) (opened : Option ℕ) (broken readable : Bool) (read : ReadOutcome)
    → d.stopping ≡ false
    → (run_round d (record { opened = opened; poll = polled false broken readable; read = read })).2
      ≡ again
unfolding run_round
run_round_again d opened broken readable read goes_on =
    let rest =
      with_fd_again (elim d.fd [ none ↦ opened | some f ↦ some f ]) d opened broken readable read in
    ground arith

-- After any sequence of starts and stops of a new device, a reader that is started goes on: no
-- old stop signal interrupts it, so that waitForStop says no and a round whose poll finds the
-- stop pipe as it is does not leave the loop. The pipe never holds more than one byte.
pub restarted_reader_goes_on :
    (piped : Bool) (cs : List Call) (opened : Option ℕ) (broken readable poll_ok : Bool)
    (read : ReadOutcome)
    → let r = calls cs (new_reader piped) in
      r.device.started ≡ true
      → (wait_for_stop poll_ok r ≡ false)
        × ((run_round r.device (record {
          opened = opened;
          poll = polled (ltb 0 r.bytes) broken readable;
          read = read;
        })).2
            ≡ again)
        × (r.bytes ≤ 1)
unfolding wait_for_stop new_reader
restarted_reader_goes_on piped cs opened broken readable poll_ok read started =
    let r = calls cs (new_reader piped) in
    let v = calls-Drained cs (new_reader piped) (ground arith) in
    let goes_on : r.device.stopping ≡ false = ground arith in
    let empty : ltb 0 r.bytes ≡ false = ground arith in
    (
      ground arith,
      rw empty (run_round_again r.device opened broken readable read goes_on),
      v.bounded,
    )
