-- ===== src/Sockets/Receive/Message.antt =====
-- source/FreeRTOS_TSN_Sockets.c: waiting for a packet, FreeRTOS_TSN_recvmsg and
-- FreeRTOS_TSN_recvfrom.
use free_rtos_tsn_compatibil.Prelude.{
  ℕ, Bool, false, ◌==◌, ◌||◌, not, if◌then◌else◌, Option, none, some, List, [], ◌∷◌, get_elem?,
}
use free_rtos_tsn_compatibil.Kernel.{Kernel, PointerQueues}
use free_rtos_tsn_compatibil.State.{Run, done, out_of_fuel, ◌>>=◌, deref, update}
use free_rtos_tsn_compatibil.Frame.{Platform}
use free_rtos_tsn_compatibil.Memory.{Msghdr, AddressLayout}
use free_rtos_tsn_compatibil.World.{
  World, released, note, Outcome, returned, negative, einval, ewouldblock, invalid_socket,
}
use free_rtos_tsn_compatibil.Sockets.Receive.{RecvFlags, copy_message}

module _ (k : Kernel) (e : PointerQueues) where
  -- The loop that waits for packets of a base socket. Each wait is what it leaves, with the
  -- packets that other tasks delivered, and whether xTaskCheckForTimeOut finds the time over then.
  unfoldable pub wait_for_packet : ℕ → List (World k e × Bool) → World k e → Run (World k e)
  wait_for_packet base [] w = out_of_fuel
  wait_for_packet base ((w', late) ∷ waits) w = deref (w'.bases base) >>= λ b.
      let rest = wait_for_packet base waits w' in
      elim (b.waiting) [ [] ↦ if late then done w' else rest | q ∷ qs ↦ done w' ]

  -- The loop with the tests before its first wait.
  unfoldable pub await_packet :
      ℕ → RecvFlags → List (World k e × Bool) → World k e → Run (World k e)
  unfolding wait_for_packet
  await_packet base flags waits w = deref (w.bases base) >>= λ b. elim (b.waiting) [
    | q ∷ qs ↦ done w
    | [] ↦
        if (b.receive_block_time == 0) || flags.dont_wait
        then done w
        else wait_for_packet base waits w
  ]

  -- The head of the list of waiting packets is taken, or only looked at, and the frame that the
  -- first vector of its message points to is put back into the buffer: the buffer and the message.
  unfoldable pub take_packet : ℕ → RecvFlags → World k e → Run (Option (World k e × ℕ × ℕ))
  take_packet base flags w = deref (w.bases base) >>= λ b. elim (b.waiting) [
    | [] ↦ done none
    | head ∷ rest ↦
        let w' =
          if flags.peek
          then w
          else record w { bases = update w.bases base (record b { waiting = rest }) } in
        deref (w'.buffers head) >>= λ buf. deref (w'.memory.messages buf.ethernet) >>= λ h.
        deref (w'.memory.iovecs h.iov) >>= λ iov. deref (get_elem? iov 0) >>= λ v. done (
          some (
            record w' { buffers = update w'.buffers head (record buf { ethernet = v.base }) },
            head,
            buf.ethernet,
          ))
  ]

  -- The end of FreeRTOS_TSN_recvmsg: the copy, and the release of the buffer, if there is one.
  unfoldable pub hand_over : Platform → World k e → ℕ → ℕ → ℕ → Run (World k e × Outcome)
  hand_over p w user msgh buffer = copy_message p w.memory user msgh >>= λ (memory, total).
      let w' = record w { memory = memory } in
      done (if buffer == 0 then w' else note k e w' (released buffer), returned total)

  -- `FreeRTOS_TSN_recvmsg`; `user` is `pxMsghUser`.
  unfoldable pub tsn_recvmsg :
      Platform → World k e → ℕ → ℕ → RecvFlags → List (World k e × Bool) → Run (World k e × Outcome)
  tsn_recvmsg p w s user flags waits = deref (w.sockets s) >>= λ socket.
      if (s == 0) || (s == invalid_socket)
      then done (w, negative einval)
      else (deref (w.bases socket.base) >>= λ base.
          if not base.is_bound
          then done (w, negative einval)
          else if user == 0
          then done (w, negative einval)
          else if flags.errqueue
          then (let (queue', received) = e.receive socket.err_queue 0 in
              let w' = record w {
                sockets = update w.sockets s (record socket { err_queue = queue' });
              } in
              elim received [
                | none ↦ done (w', negative ewouldblock)
                | some msgh ↦ hand_over p w' user msgh 0
              ])
          else (await_packet socket.base flags waits w >>= λ w1.
              take_packet socket.base flags w1 >>= λ taken. elim taken [
                | none ↦ done (w1, negative ewouldblock)
                | some (w2, buffer, msgh) ↦ hand_over p w2 user msgh buffer
              ]))

  -- `FreeRTOS_TSN_recvfrom`, with the addresses of its two variables and of the buffers of the
  -- caller; `flags` is what the variable for the message holds.
  unfoldable pub tsn_recvfrom :
      Platform
      → AddressLayout
      → World k e
      → ℕ
      → ℕ
      → ℕ
      → ℕ
      → ℕ
      → ℕ
      → ℕ
      → RecvFlags
      → List (World k e × Bool)
      → Run (World k e × Outcome)
  tsn_recvfrom p layout w s header vector buffer len source garbage flags waits =
      let message : Msghdr = record {
        name = source;
        namelen = layout.size;
        iov = vector;
        iovlen = 1;
        control = 0;
        controllen = 0;
        flags = garbage;
      } in
      let memory = record (w.memory) {
        messages = update w.memory.messages header message;
        iovecs =
            update w.memory.iovecs vector (record { base = buffer; offset = 0; len = len } ∷ []);
      } in
      tsn_recvmsg p (record w { memory = memory }) s header (record flags { errqueue = false })
        waits
