-- ===== src/Keyboard/Device/Transfers.antt =====
-- The writer sends whole commands, and the reader closes a device that failed.
use android_hardware_xiaomi.Common.{
  if_intro, subst, sym, ℕ, ◌≡◌, refl, ◌⊎◌, inl, inr, Bool, true, false, List, [], ◌∷◌, length,
  Option, none, some, arith, if◌then◌else◌, ◌==◌, ◌&&◌, not, Bool-cases,
}
use android_hardware_xiaomi.Common.Int.{ℤ, pos, neg}
use android_hardware_xiaomi.Keyboard.Client.{decode_client_command}
use android_hardware_xiaomi.Keyboard.Client.Framing.{decode_client_command_transfer}
use android_hardware_xiaomi.Keyboard.Reports.{byte}
use android_hardware_xiaomi.Keyboard.Device.{
  Device, WriteOutcome, wrote, write_failed, write_command, send_client_command, start, stop,
  is_open, einval, ReaderEnv, Notice, data_received, error_reported, Next, again, leave, run_round,
  close_device, fail, take_bytes, after_poll, with_fd, PollOutcome, poll_failed, polled,
  ReadOutcome, bytes_read, read_failed, enodev, eagain,
}

-- writeCommand reports success for one 66-byte transfer that was written whole to a device that is
-- open and not being stopped, and for nothing else; it never starts a second transfer.
pub write_command_success :
    (d : Device) (outcome : WriteOutcome) (bytes : List ℕ)
    → (write_command d outcome (some bytes)).0 ≡ pos 66
    → (length bytes ≡ 66)
      × (d.stopping ≡ false)
      × (is_open d ≡ true)
      × (outcome ≡ wrote 66)
      × ((write_command d outcome (some bytes)).1 ≡ bytes ∷ [])
unfolding write_command
write_command_success d (wrote n) bytes e = ground arith
write_command_success d (write_failed n) bytes e = ground arith

-- A client's command reaches the kernel only as one 66-byte transfer that begins with the
-- transport report; a command that the decoder refuses gives -EINVAL and no transfer.
pub send_client_command_transfer :
    (d : Device) (outcome : WriteOutcome) (command : List ℕ)
    → ((decode_client_command command ≡ none)
        × (send_client_command d outcome command ≡ (neg (pos einval), [])))
      ⊎ ((raw : List ℕ) × (decode_client_command command ≡ some raw)
          × (length raw ≡ 66)
          × (byte raw 0 ≡ 0x32)
          × (send_client_command d outcome command ≡ write_command d outcome (some raw)))
unfolding send_client_command
send_client_command_transfer d outcome command = go (decode_client_command command) refl
  where
    go :
        (r : Option (List ℕ))
        → decode_client_command command ≡ r
        → ((decode_client_command command ≡ none)
            × (send_client_command d outcome command ≡ (neg (pos einval), [])))
          ⊎ ((raw : List ℕ) × (decode_client_command command ≡ some raw)
              × (length raw ≡ 66)
              × (byte raw 0 ≡ 0x32)
              × (send_client_command d outcome command ≡ write_command d outcome (some raw)))
    go none e = inl (e, rw (send_client_command, e))
    go (some raw) e =
        let (size, first) = decode_client_command_transfer command raw e in
        inr (raw, e, size, first, rw (send_client_command, e))

-- After stop() the descriptor is gone and every command is refused until start() and a reader's
-- round that opens the device again.
pub stop_refuses :
    (d : Device) (outcome : WriteOutcome) (bytes : List ℕ)
    → d.started ≡ true
    → length bytes ≡ 66
    → (write_command (stop d) outcome (some bytes) ≡ (neg (pos 108), []))
      × (write_command (start (stop d)) outcome (some bytes) ≡ (neg (pos 19), []))
unfolding write_command start stop
stop_refuses d outcome bytes s e = (ground arith, ground arith)

-- A round of the reader, by what it reports.
abbrev pub RoundOutcome : Device × List Notice × Next → Type 0
RoundOutcome (d, [], next) = Unit
RoundOutcome (d, data_received [] ∷ rest, next) = ⊥
RoundOutcome (d, data_received (b ∷ bs) ∷ rest, next) =
    (rest ≡ []) × (next ≡ again) × (is_open d ≡ true)
RoundOutcome (d, error_reported e ∷ rest, next) = (rest ≡ []) × (next ≡ again) × (d.fd ≡ none)

close_device_closes : (d : Device) (f : ℕ) → d.fd ≡ some f → (close_device d f).fd ≡ none
unfolding close_device
close_device_closes d f e = ground arith

fail-RoundOutcome : (d : Device) (f e : ℕ) → d.fd ≡ some f → RoundOutcome (fail d f e)
fail-RoundOutcome d f e h = (refl, refl, close_device_closes d f h)

take_bytes-RoundOutcome :
    (d : Device) (f : ℕ) (read : ReadOutcome) → d.fd ≡ some f → RoundOutcome (take_bytes d f read)
unfolding take_bytes
take_bytes-RoundOutcome d f (bytes_read []) h = fail-RoundOutcome d f enodev h
take_bytes-RoundOutcome d f (bytes_read (b ∷ bs)) h = (refl, refl, ground arith)
take_bytes-RoundOutcome d f (read_failed e) h = elim (Bool-cases (e == eagain)) [
  | inl waits ↦ rw (take_bytes, waits) tt
  | inr broken ↦ rw (take_bytes, broken) (fail-RoundOutcome d f e h)
]

after_poll-RoundOutcome :
    (d : Device) (f : ℕ) (poll : PollOutcome) (read : ReadOutcome)
    → d.fd ≡ some f
    → RoundOutcome (after_poll d f poll read)
unfolding after_poll
after_poll-RoundOutcome d f (poll_failed e) read h = fail-RoundOutcome d f e h
after_poll-RoundOutcome d f (polled stop_ready broken readable) read h =
    elim (Bool-cases (d.stop_pipe && stop_ready)) [
      | inl stops ↦ rw (after_poll, stops) tt
      | inr goes_on ↦ rw (after_poll, goes_on) (by_flags broken readable)
    ]
  where
    by_flags :
        (broken readable : Bool)
        → RoundOutcome (
            if broken
            then fail d f enodev
            else if not readable
            then (d, [], again)
            else take_bytes d f read)
    by_flags true readable = fail-RoundOutcome d f enodev h
    by_flags false false = tt
    by_flags false true = take_bytes-RoundOutcome d f read h

with_fd-RoundOutcome :
    (fd : Option ℕ) (d : Device) (env : ReaderEnv) → RoundOutcome (with_fd fd d env)
unfolding with_fd
with_fd-RoundOutcome none d env = tt
with_fd-RoundOutcome (some f) d env =
    after_poll-RoundOutcome (record d { fd = some f }) f env.poll env.read refl

-- A round of the reader that reports an error reports that one error, leaves the device closed and
-- goes on, so that the next round opens it again. A round that delivers data delivers one block of
-- at least one byte, leaves the device open and goes on.
pub run_round-RoundOutcome : (d : Device) (env : ReaderEnv) → RoundOutcome (run_round d env)
unfolding run_round
run_round-RoundOutcome d env = elim (Bool-cases d.stopping) [
  | inl stops ↦ rw (run_round, stops) tt
  | inr goes_on ↦ rw (run_round, goes_on) (with_fd-RoundOutcome _ _ env)
]

-- A round that begins with an open device leaves it open, or reports an error and nothing else.
abbrev pub LossReported : Device × List Notice × Next → Type 0
LossReported (d, notices, next) =
    ((f : ℕ) × (d.fd ≡ some f)) ⊎ ((e : ℤ) × (notices ≡ error_reported e ∷ []))

take_bytes-LossReported :
    (d : Device) (f : ℕ) (read : ReadOutcome) → d.fd ≡ some f → LossReported (take_bytes d f read)
unfolding take_bytes
take_bytes-LossReported d f (bytes_read []) h = inr (neg (pos enodev), refl)
take_bytes-LossReported d f (bytes_read (b ∷ bs)) h = inl (f, h)
take_bytes-LossReported d f (read_failed e) h =
    if_intro LossReported (e == eagain) (d, [], again) (fail d f e) (inl (f, h))
      (inr (neg (pos e), refl))

after_poll-LossReported :
    (d : Device) (f : ℕ) (poll : PollOutcome) (read : ReadOutcome)
    → d.fd ≡ some f
    → LossReported (after_poll d f poll read)
unfolding after_poll
after_poll-LossReported d f (poll_failed e) read h = inr (neg (pos e), refl)
after_poll-LossReported d f (polled stop_ready broken readable) read h =
    if_intro LossReported (d.stop_pipe && stop_ready) (d, [], leave) _ (inl (f, h))
      (if_intro LossReported broken (fail d f enodev) _ (inr (neg (pos enodev), refl)) (
        if_intro LossReported (not readable) (d, [], again) (take_bytes d f read) (inl (f, h))
          (take_bytes-LossReported d f read h)))

pub run_round-LossReported :
    (d : Device) (env : ReaderEnv) (f : ℕ)
    → d.fd ≡ some f
    → d.stopping ≡ false
    → LossReported (run_round d env)
unfolding run_round with_fd
run_round-LossReported d env f h goes_on =
    let at : Option ℕ → Device × List Notice × Next =
      λ o. with_fd (elim o [ none ↦ env.opened | some g ↦ some g ]) d env in
    let polled_round : LossReported (at (some f)) =
      after_poll-LossReported (record d { fd = some f }) f env.poll env.read refl in
    let opened : LossReported (at d.fd) =
      subst (λ (o : Option ℕ). LossReported (at o)) (sym h) polled_round in
    subst (λ (b : Bool). LossReported (if b then (d, [], leave) else at d.fd)) (sym goes_on) opened
