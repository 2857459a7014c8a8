-- ===== src/Wrapper/Receive.antt =====
-- source/portable/NetworkInterface/Common/NetworkWrapper.c: a frame that the network driver hands
-- over becomes an item for the network queues. The functions of the allocator, the socket lookup
-- of FreeRTOS-Plus-TCP and the user's timebase are arguments.
pub mod Frames
pub mod Messages
pub mod Built
pub mod Accepted
pub mod Runs
pub mod Delivered
pub mod Miscounted
pub mod Event
use free_rtos_tsn_compatibil.Prelude.{
  ℕ, ◌+◌, Bool, true, false, ◌==◌, if◌then◌else◌, Option, none, some, List,
}
use free_rtos_tsn_compatibil.Kernel.{
  Kernel, PointerQueues, EventType, Item, network_tx, network_rx, other_event,
}
use free_rtos_tsn_compatibil.State.{Config, Run, done, fault, ◌>>=◌, deref, update, release}
use free_rtos_tsn_compatibil.Bytes.{copy_out}
use free_rtos_tsn_compatibil.Frame.{Platform, Buffer, frame_type_offset, read8, read16}
use free_rtos_tsn_compatibil.Timebase.{Timespec}
use free_rtos_tsn_compatibil.Timebase.Handle.{Timebase}
use free_rtos_tsn_compatibil.Memory.{AddressLayout, Memory}
use free_rtos_tsn_compatibil.Ancillary.{msg_malloc, msg_fill_name, msg_fill_payload}
use free_rtos_tsn_compatibil.World.{NetworkBuffer, World, sent_to_ip_task, note}
use free_rtos_tsn_compatibil.Scheduler.{insert_packet_by_filter}
use free_rtos_tsn_compatibil.Sockets.{socket_from_port}
use free_rtos_tsn_compatibil.Wrapper.{strip_vlan_tag}
use free_rtos_tsn_compatibil.Wrapper.Control.{control_fill_for_rx}

-- What pvPortMalloc returns: an address, or 0, for the message, the name, the vector of the
-- payload, the control buffer, which holds these bytes, and the item.
pub record Granted : Type 0 where
  pub message : ℕ
  pub name : ℕ
  pub iov : ℕ
  pub control : ℕ
  pub control_bytes : List ℕ
  pub item : ℕ

-- How an address of a socket stands in memory, how the 16 bytes of an IPv6 address are read,
-- `FREERTOS_AF_INET` and `FREERTOS_AF_INET6`, pxUDPSocketLookup, and the timebase with the time
-- that its function gives.
pub record Surroundings : Type 0 where
  pub layout : AddressLayout
  pub load128 : List ℕ → ℕ
  pub af_inet : ℕ
  pub af_inet6 : ℕ
  pub lookup : ℕ → ℕ
  pub timebase : Timebase
  pub time_of : ℕ → Timespec

-- `pxNetworkQueueItemMalloc`, with the fields that prvHandleReceive writes, and
-- `NetworkQueueItemFree`.
unfoldable pub item_malloc : (ℕ → Option Item) → ℕ → Item → (ℕ → Option Item) × ℕ
item_malloc items address item =
    if address == 0 then (items, 0) else (update items address item, address)

unfoldable pub item_free : (ℕ → Option Item) → ℕ → Run (ℕ → Option Item)
item_free items address =
    if address == 0
    then done items
    else deref (items address) >>= λ old. done (release items address)

-- What prvHandleReceive takes from a frame: the type, the protocol, the destination address, and
-- `uxPrefix`.
pub record Header : Type 0 where
  pub frame_type : ℕ
  pub protocol : ℕ
  pub address : ℕ
  pub prefix : ℕ

module _ (p : Platform) (s : Surroundings) where
  -- The first `switch`. The address of a frame that is not IP is not set, and not read.
  unfoldable pub read_header : Buffer → Run Header
  read_header frame = read16 p frame frame_type_offset >>= λ frame_type.
      if frame_type == p.ipv4_frame_type
      then (read8 frame 23 >>= λ protocol. copy_out 30 4 frame.bytes >>= λ address. done (record {
        frame_type = frame_type;
        protocol = protocol;
        address = p.load32 address;
        prefix = 34;
      }))
      else if frame_type == p.ipv6_frame_type
      then (read8 frame 20 >>= λ protocol. copy_out 38 16 frame.bytes >>= λ address. done (record {
        frame_type = frame_type;
        protocol = protocol;
        address = s.load128 address;
        prefix = 54;
      }))
      else done (record { frame_type = frame_type; protocol = 255; address = 0; prefix = 14 })

  -- The second `switch`: the destination and the source port of UDP and TCP.
  unfoldable pub read_ports : Buffer → Header → Run (ℕ × ℕ)
  read_ports frame h =
      if h.protocol == 17
      then (read16 p frame (h.prefix + 2) >>= λ destination.
          read16 p frame h.prefix >>= λ source. done (destination, source))
      else if h.protocol == 6
      then (read16 p frame (h.prefix + 2) >>= λ destination.
          read16 p frame h.prefix >>= λ source. done (destination, source))
      else done (0, 0)

  -- The third `switch`, with the results that are ignored.
  unfoldable pub fill_destination : Granted → Memory → Header → ℕ → Run Memory
  fill_destination g m h port =
      if h.frame_type == p.ipv4_frame_type
      then (msg_fill_name s.layout g.name m g.message (some h.address) port s.af_inet
          >>= λ (m', filled). done m')
      else if h.frame_type == p.ipv6_frame_type
      then (msg_fill_name s.layout g.name m g.message (some h.address) port s.af_inet6
          >>= λ (m', filled). done m')
      else done m

  module _ (k : Kernel) (e : PointerQueues) where
    -- The call of `prvStripVLANTag`, on the buffer and its bytes in memory.
    unfoldable pub strip_in_place : World k e → ℕ → Run (World k e × Buffer)
    strip_in_place w b = deref (w.buffers b) >>= λ buf.
        deref (w.memory.bytes buf.ethernet) >>= λ bytes.
        strip_vlan_tag p (record { data_length = buf.data_length; bytes = bytes })
        >>= λ (frame, stripped). done (
          record w {
            memory = record w.memory { bytes = update w.memory.bytes buf.ethernet frame.bytes };
            buffers = update w.buffers b (record buf { data_length = frame.data_length });
          },
          frame,
        )

    -- The message for a TSN socket.
    unfoldable pub build_message : Granted → World k e → ℕ → Header → ℕ → ℕ → Run Memory
    unfolding fill_destination
    build_message g w b h port tsn = msg_malloc g.message w.memory >>= λ m1.
        control_fill_for_rx p k e s.time_of s.timebase g.control g.control_bytes
          (record w { memory = m1 }) g.message tsn
        >>= λ (m2, options). fill_destination g m2 h port >>= λ m3. deref (w.buffers b) >>= λ buf.
            msg_fill_payload g.iov m3 g.message buf.ethernet buf.data_length >>= λ (m4, filled).
            done m4

    -- The test of the destination port up to the item: the message, or `none` where there is no
    -- receiving socket. Where the list of bound sockets is not initialised, `xTSNSocket` is read
    -- without having been written.
    unfoldable pub message_for : Granted → World k e → ℕ → Header → ℕ → Run (World k e × Option ℕ)
    unfolding build_message
    message_for g w b h port =
        if port == 0
        then done (w, some 0)
        else (socket_from_port k e s.lookup w port >>= λ found. deref found >>= λ (base, tsn).
            if tsn == 0
            then done (w, if base == 0 then none else some 0)
            else (build_message g w b h port tsn >>= λ m.
                done (record w { memory = m }, some g.message)))

    -- `prvHandleReceive`; the number is the address of the item, or 0.
    unfoldable pub handle_receive :
        Granted → World k e → (ℕ → Option Item) → ℕ → Run (World k e × (ℕ → Option Item) × ℕ)
    handle_receive g w items b = strip_in_place w b >>= λ (w1, frame). read_header frame >>= λ h.
        read_ports frame h >>= λ (destination, source). deref (w1.buffers b) >>= λ buf.
        let w2 = record w1 {
          buffers = update w1.buffers b (record buf { bound_port = destination; port = source });
        } in
        message_for g w2 b h destination >>= λ (w3, message). elim message [
          | none ↦ done (w3, items, 0)
          | some msgh ↦
              let item : Item = record {
                event_type = network_rx;
                buf = b;
                msgh = msgh;
                release_after_send = true;
              } in
              let (items', address) = item_malloc items g.item item in done (w3, items', address)
        ]

    -- `xSendEventStructToTSNController`, with what xSendEventStructToIPTask returns. The event is
    -- its type and `pvData`.
    unfoldable pub send_event_to_controller :
        Config
        → Granted
        → Bool
        → World k e
        → (ℕ → Option Item)
        → EventType
        → ℕ
        → ℕ
        → Run (World k e × (ℕ → Option Item) × Bool)
    send_event_to_controller c g ip_task_takes w items network_rx b timeout =
        handle_receive g w items b >>= λ (w', items', address).
        if address == 0
        then done (w', items', false)
        else (deref (items' address) >>= λ item.
            insert_packet_by_filter k c w'.net item timeout >>= λ (net, inserted).
            done (record w' { net = net }, items', inserted))
    send_event_to_controller c g ip_task_takes w items network_tx b timeout =
        done (note k e w (sent_to_ip_task b ip_task_takes), items, ip_task_takes)
    send_event_to_controller c g ip_task_takes w items (other_event n) b timeout =
        done (note k e w (sent_to_ip_task b ip_task_takes), items, ip_task_takes)
