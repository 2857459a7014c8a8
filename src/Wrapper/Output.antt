-- ===== src/Wrapper/Output.antt =====
-- source/portable/NetworkInterface/Common/NetworkWrapper.c: the output of a packet. The task of
-- the TSN controller hands it to the driver of the network, and every other task queues it.
pub mod Queued
pub mod Report
pub mod Sent
pub mod Tagged
use free_rtos_tsn_compatibil.Prelude.{
  ℕ, Bool, true, false, not, leb, ◌==◌, if◌then◌else◌, Option, none, some, List, [],
}
use free_rtos_tsn_compatibil.Kernel.{Kernel, PointerQueues, Item, network_tx}
use free_rtos_tsn_compatibil.State.{Config, Run, done, ◌>>=◌, deref, update}
use free_rtos_tsn_compatibil.Frame.{Platform}
use free_rtos_tsn_compatibil.Ancillary.{msg_malloc, msg_free, msg_fill_name}
use free_rtos_tsn_compatibil.World.{NetworkBuffer, World, released, output, note}
use free_rtos_tsn_compatibil.Scheduler.{insert_packet_by_filter}
use free_rtos_tsn_compatibil.Sockets.{socket_from_port, error_queue_insert}
use free_rtos_tsn_compatibil.Wrapper.Insert.{insert_vlan_tag}
use free_rtos_tsn_compatibil.Wrapper.Control.{ExtendedErr, control_fill_for_tx}
use free_rtos_tsn_compatibil.Wrapper.Receive.{Granted, Surroundings}

-- `NetworkInterfaceConfig_t`.
pub record InterfaceConfig : Type 0 where
  pub emac_index : ℕ
  pub num_tags : ℕ
  pub vlan_tag : ℕ
  pub service_vlan_tag : ℕ

-- `tsnconfigDEFAULT_QUEUE_TIMEOUT`, `wrapperFIRST_TPID` and `wrapperSECOND_TPID`.
abbrev pub default_queue_timeout : ℕ
default_queue_timeout = 50

abbrev pub first_tpid : ℕ
first_tpid = 0x88a8

abbrev pub second_tpid : ℕ
second_tpid = 0x8100

-- What pxResizeNetworkBufferWithDescriptor returns where it succeeds: the descriptor, all
-- descriptors as they are then, and the memory of the frame.
pub record ResizeAnswer : Type 0 where
  pub descriptor : ℕ
  pub buffers : ℕ → Option NetworkBuffer
  pub memory : List ℕ

-- What the driver's output returns, and all descriptors as they are then.
pub record MacAnswer : Type 0 where
  pub sent : Bool
  pub buffers : ℕ → Option NetworkBuffer

-- The item of a packet to be sent.
abbrev pub output_item : ℕ → Bool → Item
output_item b release = record {
  event_type = network_tx;
  buf = b;
  msgh = 0;
  release_after_send = release;
}

module _ (p : Platform) (s : Surroundings) (k : Kernel) (e : PointerQueues) where
  -- A call of `prvInsertVLANTag` on a descriptor: the new one, or 0.
  unfoldable pub insert_in_place : World k e → ℕ → Option ResizeAnswer → ℕ → ℕ → Run (World k e × ℕ)
  insert_in_place w b none tci tpid =
      deref (w.buffers b) >>= λ buf. done (note k e w (released b), 0)
  insert_in_place w b (some r) tci tpid = deref (w.buffers b) >>= λ buf.
      deref (r.buffers b) >>= λ old. deref (r.buffers r.descriptor) >>= λ new.
      insert_vlan_tag p (record { data_length = buf.data_length; bytes = [] })
        (some
          (record { is_same = r.descriptor == b; old_length = old.data_length; memory = r.memory }))
        tci tpid
      >>= λ result. deref result >>= λ frame. done (
        record w {
          buffers = update r.buffers r.descriptor (record new { data_length = frame.data_length });
          memory = record w.memory { bytes = update w.memory.bytes new.ethernet frame.bytes };
        },
        r.descriptor,
      )

  -- The tags of the interface; false where the function returns pdFALSE.
  unfoldable pub insert_tags :
      World k e
      → ℕ
      → InterfaceConfig
      → Option ResizeAnswer
      → Option ResizeAnswer
      → Run (World k e × Bool)
  unfolding insert_in_place
  insert_tags w b config first second =
      if leb 1 config.num_tags
      then (insert_in_place w b first config.vlan_tag second_tpid >>= λ (w1, b1).
          if b1 == 0
          then done (w1, false)
          else if leb 2 config.num_tags
          then (insert_in_place w1 b1 second config.service_vlan_tag first_tpid >>= λ (w2, b2).
              done (w2, not (b2 == 0)))
          else done (w1, true))
      else done (w, true)

  -- What follows an output that succeeded: a report for the TSN socket that sent the packet. The
  -- result of the insertion into the error queue is ignored.
  unfoldable pub report_sent : Granted → ExtendedErr → World k e → ℕ → Run (World k e)
  report_sent g garbage w b = deref (w.buffers b) >>= λ buf.
      socket_from_port k e s.lookup w buf.bound_port >>= λ found.
      let (base, tsn) : ℕ × ℕ = elim found [ none ↦ (0, 0) | some pair ↦ pair ] in
      if tsn == 0
      then done w
      else (msg_malloc g.message w.memory >>= λ m1.
          control_fill_for_tx p k e s.time_of s.timebase garbage g.control g.control_bytes
            (record w { memory = m1 }) g.message tsn
          >>= λ (m2, options).
              if options == 0
              then (msg_free m2 g.message >>= λ m3. done (record w { memory = m3 }))
              else (msg_fill_name s.layout 0 m2 g.message none 0 0 >>= λ (m3, filled).
                  error_queue_insert k e (record w { memory = m3 }) tsn g.message
                  >>= λ (w', inserted). done w'))

  -- `xTSN_NetworkInterfaceOutput`. `calling` is `xIsCallingFromTSNController`, and `configs` leads
  -- from an interface to the struct behind its `pvArgument`. It is the descriptor that the caller
  -- gave that goes to the driver.
  unfoldable pub network_interface_output :
      Config
      → Granted
      → ExtendedErr
      → Bool
      → (ℕ → Option InterfaceConfig)
      → Option ResizeAnswer
      → Option ResizeAnswer
      → MacAnswer
      → World k e
      → ℕ
      → ℕ
      → Bool
      → Run (World k e × Bool)
  network_interface_output c g garbage calling configs first second mac w interface b release =
      if calling
      then (deref (configs interface) >>= λ config.
          insert_tags w b config first second >>= λ (w1, tagged).
          if tagged
          then (let w2 =
                note k e (record w1 { buffers = mac.buffers }) (output interface b release) in
              if mac.sent
              then (report_sent g garbage w2 b >>= λ w3. done (w3, true))
              else done (w2, false))
          else done (w1, false))
      else (insert_packet_by_filter k c w.net (output_item b release) default_queue_timeout
          >>= λ (net, inserted). done (record w { net = net }, inserted))
