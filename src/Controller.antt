-- ===== src/Controller.antt =====
-- source/FreeRTOS_TSN_Controller.c: the delivery of frames and the task of the TSN controller. The
-- priority of the task is in Priority.
pub mod Task
pub mod Waiting
pub mod Rounds
pub mod Drains
pub mod Order
pub mod Served
pub mod Fate
pub mod Delivery
use free_rtos_tsn_compatibil.Prelude.{
  ℕ, zero, suc, ◌+◌, ◌/◌, ◌%◌, Bool, true, false, ltb, ◌==◌, ◌||◌, ◌&&◌, not, if◌then◌else◌, Option,
  none, some, List, [], ◌∷◌, ◌++◌, get_elem?,
}
use free_rtos_tsn_compatibil.Kernel.{Kernel, PointerQueues, Item, network_tx, network_rx}
use free_rtos_tsn_compatibil.State.{
  QueuePolicy, ip_task_events, Config, State, Run, done, fault, out_of_fuel, ◌>>=◌, deref, update,
}
use free_rtos_tsn_compatibil.Priority.{task_base_prio, is_empty, compute_priority}
use free_rtos_tsn_compatibil.Scheduler.{pop}
use free_rtos_tsn_compatibil.Block.{Env, ticks_until_wakeup, schedule}
use free_rtos_tsn_compatibil.Bytes.{copy_out}
use free_rtos_tsn_compatibil.Frame.{Platform, size_of_eth_header, frame_type_offset}
use free_rtos_tsn_compatibil.Memory.{Memory}
use free_rtos_tsn_compatibil.Ancillary.{msg_free_all}
use free_rtos_tsn_compatibil.World.{
  NetworkBuffer, BaseSocket, World, released, output, sent_to_ip_task, processed, receive_event,
  note,
}
use free_rtos_tsn_compatibil.Sockets.{error_queue_insert, socket_from_port}

-- What the code outside of the repository answers: pxUDPSocketLookup on a port,
-- xSendEventStructToIPTask and xProcessReceivedUDPPacket on a network buffer, and
-- `pxNetworkInterface` of an end point.
pub record Stack : Type 0 where
  pub lookup : ℕ → ℕ
  pub ip_task_takes : ℕ → Bool
  pub process : ℕ → Bool
  pub interface_of : ℕ → ℕ

-- `FREERTOS_MSG_ERRQUEUE` is bit 14.
abbrev pub is_errqueue : ℕ → Bool
is_errqueue flags = flags / 16384 % 2 == 1

module _ (k : Kernel) (e : PointerQueues) where
  -- `prvReceiveUDPPacketTSN`, with one iovec of the message pointing to the frame.
  unfoldable pub receive_udp_packet : World k e → Item → ℕ → ℕ → Run (World k e)
  unfolding error_queue_insert
  receive_udp_packet w item tsn base =
      deref (if item.msgh == 0 then none else w.memory.messages item.msgh) >>= λ h.
      if is_errqueue h.flags
      then (let w' = if item.buf == 0 then w else note k e w (released item.buf) in
          error_queue_insert k e w' tsn item.msgh >>= λ (w'', inserted). done w'')
      else (deref (w.memory.iovecs h.iov) >>= λ iov. deref (get_elem? iov 0) >>= λ v.
          deref (w.buffers item.buf) >>= λ buf.
          if (v.base == buf.ethernet) && (v.offset == 0)
          then (deref (w.bases base) >>= λ socket.
              let w' = record w {
                buffers = update w.buffers item.buf (record buf { ethernet = item.msgh });
                bases =
                    update w.bases base
                      (record socket { waiting = socket.waiting ++ (item.buf ∷ []) });
              } in
              done (if socket.has_event_group then note k e w' (receive_event base) else w'))
          else fault)

  -- xSendEventStructToIPTask with the buffer, which is released where that fails.
  unfoldable pub pass_to_ip_task : Stack → World k e → ℕ → World k e
  pass_to_ip_task s w buffer =
      let w' = note k e w (sent_to_ip_task buffer (s.ip_task_takes buffer)) in
      if s.ip_task_takes buffer then w' else note k e w' (released buffer)

  -- The branch of `prvDeliverFrame` for a socket that is not a TSN socket.
  unfoldable pub deliver_to_stack : Stack → World k e → Item → Bool → ℕ → Run (World k e)
  unfolding pass_to_ip_task
  deliver_to_stack s w item using_ip_task protocol =
      (if item.msgh == 0 then done w.memory else msg_free_all w.memory item.msgh) >>= λ memory.
      let w' = record w { memory = memory } in
      if using_ip_task || not (protocol == 17)
      then done (pass_to_ip_task s w' item.buf)
      else (deref (w'.buffers item.buf) >>= λ buf. deref (w'.memory.bytes buf.ethernet) >>= λ bytes.
          copy_out 36 2 bytes >>= λ port.
          let w'' = note k e w' (processed item.buf (s.process item.buf)) in
          done (if s.process item.buf then w'' else note k e w'' (released item.buf)))

  -- The code of `prvDeliverFrame` behind the `switch`, with `ucProto`.
  unfoldable pub dispatch : Stack → World k e → Item → Bool → ℕ → ℕ → Run (World k e)
  unfolding receive_udp_packet deliver_to_stack pass_to_ip_task
  dispatch s w item using_ip_task port protocol = socket_from_port k e s.lookup w port >>= λ found.
      let (base, tsn) : ℕ × ℕ = elim found [ none ↦ (0, 0) | some pair ↦ pair ] in
      if not (tsn == 0)
      then receive_udp_packet w item tsn base
      else if not (base == 0)
      then deliver_to_stack s w item using_ip_task protocol
      else done (pass_to_ip_task s w item.buf)

  -- `prvDeliverFrame`; an IPPacket_t has 34 bytes.
  unfoldable pub deliver_frame : Platform → Stack → World k e → Item → Bool → Run (World k e)
  deliver_frame p s w item using_ip_task =
      if item.buf == 0
      then done w
      else (deref (w.buffers item.buf) >>= λ buf.
          if (buf.interface == 0) || (buf.end_point == 0)
          then done w
          else if ltb buf.data_length size_of_eth_header
          then done w
          else (deref (w.memory.bytes buf.ethernet) >>= λ bytes.
              deref (get_elem? bytes frame_type_offset) >>= λ low.
              deref (get_elem? bytes (frame_type_offset + 1)) >>= λ high.
              if p.load16 low high == p.ipv4_frame_type
              then (if ltb buf.data_length 34
                  then done (note k e w (released item.buf))
                  else (copy_out 26 4 bytes >>= λ address.
                      deref (get_elem? bytes 23) >>= λ protocol.
                      dispatch s
                        (record w {
                          buffers =
                              update w.buffers item.buf
                                (record buf { ip_address = p.load32 address });
                        })
                        item using_ip_task buf.bound_port protocol))
              else dispatch s w item using_ip_task buf.bound_port 0))
