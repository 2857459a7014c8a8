-- ===== src/Sockets/Send.antt =====
-- source/FreeRTOS_TSN_Sockets.c: FreeRTOS_TSN_sendto and the headers that it writes, in the
-- default configuration, which inserts no VLAN tags here. The checksums are left to the driver
-- (ipconfigDRIVER_INCLUDED_TX_IP_CHECKSUM). Sizes and offsets of headers are those of the
-- protocols.
pub mod Headers
pub mod Disposal
pub mod Ownership
use free_rtos_tsn_compatibil.Prelude.{
  ℕ, zero, suc, ◌+◌, ◌-◌, ◌*◌, ◌/◌, ◌%◌, ◌^◌, Bool, true, false, ltb, ◌==◌, not, if◌then◌else◌,
  Option, none, some, List, [], ◌∷◌, ◌++◌, length,
}
use free_rtos_tsn_compatibil.Kernel.{Kernel, PointerQueues, Item, network_tx}
use free_rtos_tsn_compatibil.State.{Config, Run, done, fault, ◌>>=◌, deref, update, u32}
use free_rtos_tsn_compatibil.Scheduler.{insert_packet_by_filter}
use free_rtos_tsn_compatibil.Bytes.{copy_in, store_all}
use free_rtos_tsn_compatibil.Frame.{Platform, size_of_eth_header, frame_type_offset}
use free_rtos_tsn_compatibil.DiffServ.{set_dsclass_ipv4}
use free_rtos_tsn_compatibil.World.{
  NetworkBuffer, BaseSocket, TsnSocket, World, Effect, released, note, Outcome, returned, negative,
  einval, ebadf, eagain, etimedout,
}

-- `ipconfigUDP_TIME_TO_LIVE`, `ipconfigETHERNET_MINIMUM_PACKET_BYTES`, `ipconfigNETWORK_MTU` and
-- `ipconfigUSE_IPv6`.
pub record IpConfig : Type 0 where
  pub time_to_live : ℕ
  pub minimum_packet_bytes : ℕ
  pub network_mtu : ℕ
  pub use_ipv6 : Bool

-- `NetworkEndPoint_t`: its address, the bytes of its MAC address, and its IP address.
pub record EndPoint : Type 0 where
  pub address : ℕ
  pub mac : ℕ → ℕ
  pub ip_address : ℕ

-- The family of the destination, and its address and port, in network order.
pub data Family : Type 0 where
  inet4 inet6 other_family : Family

pub record Destination : Type 0 where
  pub family : Family
  pub ip_address : ℕ
  pub port : ℕ

-- What the calls in one FreeRTOS_TSN_sendto return: pxGetNetworkBufferWithDescriptor the address
-- of a descriptor, or 0, with the memory of its frame; eARPGetCacheEntry the MAC address and the
-- end point on a hit; and xTaskCheckForTimeOut.
pub record Answers : Type 0 where
  pub buffer : ℕ
  pub descriptor : NetworkBuffer
  pub fresh : List ℕ
  pub arp : Option ((ℕ → ℕ) × EndPoint)
  pub timed_out : Bool
  pub remaining_time : ℕ

-- The stores of the padding.
unfoldable pub zeros : ℕ → ℕ → List (ℕ × ℕ)
zeros at zero = []
zeros at (suc n) = (at, 0) ∷ zeros (at + 1) n

-- The stores of `prvPrepareBufferUDPv4` before and in the call of eARPGetCacheEntry.
abbrev pub ethernet_destination : (ℕ → ℕ) → List (ℕ × ℕ)
ethernet_destination mac =
    (0, mac 0) ∷ (1, mac 1) ∷ (2, mac 2) ∷ (3, mac 3) ∷ (4, mac 4) ∷ (5, mac 5) ∷ []

module _ (p : Platform) (u : IpConfig) where
  -- The stores after it, to the headers of Ethernet, IPv4 and UDP: the size of the payload, the
  -- class, the end point, and the destination address, the port and the bound port.
  abbrev pub udp_headers : ℕ → ℕ → EndPoint → ℕ → ℕ → ℕ → List (ℕ × ℕ)
  udp_headers payload class end_point ip_address port bound_port =
      let ip_length = (payload + 20 + 8) % 2 ^ 16 in
      let udp_length = (payload + 8) % 2 ^ 16 in
      (6, end_point.mac 0)
      ∷ (7, end_point.mac 1)
      ∷ (8, end_point.mac 2)
      ∷ (9, end_point.mac 3)
      ∷ (10, end_point.mac 4)
      ∷ (11, end_point.mac 5)
      ∷ (12, p.low_byte p.ipv4_frame_type)
      ∷ (13, p.high_byte p.ipv4_frame_type)
      ∷ (14, 0x45)
      ∷ (15, set_dsclass_ipv4 class)
      ∷ (16, p.low_byte ip_length)
      ∷ (17, p.high_byte ip_length)
      ∷ (16, p.low_byte (p.htons ip_length))
      ∷ (17, p.high_byte (p.htons ip_length))
      ∷ (18, 0)
      ∷ (19, 0)
      ∷ (20, 0)
      ∷ (21, 0)
      ∷ (22, u.time_to_live)
      ∷ (23, 17)
      ∷ (26, p.byte32 0 end_point.ip_address)
      ∷ (27, p.byte32 1 end_point.ip_address)
      ∷ (28, p.byte32 2 end_point.ip_address)
      ∷ (29, p.byte32 3 end_point.ip_address)
      ∷ (30, p.byte32 0 ip_address)
      ∷ (31, p.byte32 1 ip_address)
      ∷ (32, p.byte32 2 ip_address)
      ∷ (33, p.byte32 3 ip_address)
      ∷ (36, p.low_byte port)
      ∷ (37, p.high_byte port)
      ∷ (34, p.low_byte bound_port)
      ∷ (35, p.high_byte bound_port)
      ∷ (38, p.low_byte udp_length)
      ∷ (39, p.high_byte udp_length)
      ∷ (38, p.low_byte (p.htons udp_length))
      ∷ (39, p.high_byte (p.htons udp_length))
      ∷ (24, 0)
      ∷ (25, 0)
      ∷ (40, 0)
      ∷ (41, 0)
      ∷ []

  -- `prvPrepareBufferUDPv4` on a descriptor and the bytes of its frame; true is pdPASS.
  unfoldable pub prepare_udpv4 :
      ℕ → Option ((ℕ → ℕ) × EndPoint) → NetworkBuffer → List ℕ → Run (NetworkBuffer × List ℕ × Bool)
  unfolding zeros
  prepare_udpv4 class none buf bytes =
      store_all (ethernet_destination (λ i. 0)) bytes >>= λ bytes'. done (buf, bytes', false)
  prepare_udpv4 class (some (mac, end_point)) buf bytes =
      let payload = u32 (buf.data_length + 2 ^ 32 - 42) in
      let buf' = record buf { end_point = end_point.address } in
      store_all (ethernet_destination (λ i. 0)) bytes >>= λ b1.
      store_all (ethernet_destination mac) b1 >>= λ b2.
      store_all (udp_headers payload class end_point buf.ip_address buf.port buf.bound_port) b2
      >>= λ b3.
          if ltb buf.data_length u.minimum_packet_bytes
          then (store_all (zeros buf.data_length (u.minimum_packet_bytes - buf.data_length)) b3
              >>= λ b4. done (record buf' { data_length = u.minimum_packet_bytes }, b4, true))
          else done (buf', b3, true)

-- The item that `FreeRTOS_TSN_sendto` inserts.
abbrev pub tx_item : ℕ → Item
tx_item buffer = record {
  event_type = network_tx;
  buf = buffer;
  msgh = 0;
  release_after_send = true;
}

module _ (k : Kernel) (e : PointerQueues) (c : Config) (p : Platform) (u : IpConfig) where
  -- The descriptor that `FreeRTOS_TSN_sendto` takes, with the fields that it sets.
  unfoldable pub acquire : World k e → Answers → ℕ → BaseSocket → Destination → World k e
  acquire w a size base d =
      let buf = record a.descriptor {
        data_length = size;
        end_point = base.end_point;
        port = d.port;
        bound_port = base.bound_port % 2 ^ 16;
        ip_address = d.ip_address;
      } in
      record w {
        buffers = update w.buffers a.buffer buf;
        memory = record (w.memory) { bytes = update w.memory.bytes a.descriptor.ethernet a.fresh };
      }

  -- The end of `FreeRTOS_TSN_sendto`, with the frame in the buffer.
  unfoldable pub queue_frame : World k e → Answers → ℕ → Run (World k e × Outcome)
  queue_frame w a total =
      if a.timed_out
      then done (note k e w (released a.buffer), negative etimedout)
      else (insert_packet_by_filter k c w.net (tx_item a.buffer) a.remaining_time
          >>= λ (net', inserted).
              if inserted
              then done (record w { net = net' }, returned total)
              else done (note k e (record w { net = net' }) (released a.buffer), negative eagain))

  -- The part of the case of IPv4 behind the call of `prvPrepareBufferUDPv4`, and the code behind
  -- the `switch`, with what that call left and returned.
  unfoldable pub send_prepared :
      World k e → Answers → List ℕ → NetworkBuffer × List ℕ × Bool → Run (World k e × Outcome)
  unfolding queue_frame
  send_prepared w a payload (buf, bytes, prepared) =
      let w' = record w {
        buffers = update w.buffers a.buffer buf;
        memory = record (w.memory) { bytes = update w.memory.bytes buf.ethernet bytes };
      } in
      if not prepared
      then done (note k e w' (released a.buffer), negative eagain)
      else if ltb (u.network_mtu - 28) (length payload)
      then done (note k e w' (released a.buffer), negative einval)
      else (copy_in 42 payload bytes >>= λ bytes'.
          queue_frame
            (record w' {
              memory = record (w'.memory) { bytes = update w'.memory.bytes buf.ethernet bytes' };
            })
            a (length payload))

  -- The case of IPv4.
  unfoldable pub send_ipv4 :
      World k e
      → Answers
      → TsnSocket e
      → BaseSocket
      → Destination
      → List ℕ
      → Run (World k e × Outcome)
  unfolding acquire prepare_udpv4 send_prepared
  send_ipv4 w a socket base d payload =
      if a.buffer == 0
      then done (w, negative eagain)
      else (let w1 = acquire w a (u32 (length payload + 42)) base d in
          deref (w1.buffers a.buffer) >>= λ buf. deref (w1.memory.bytes buf.ethernet) >>= λ bytes.
          prepare_udpv4 p u socket.ds_class a.arp buf bytes >>= λ after.
          send_prepared w1 a payload after)

  -- The case of IPv6: `prvPrepareBufferUDPv6` returns pdFAIL.
  unfoldable pub send_ipv6 :
      World k e → Answers → BaseSocket → Destination → List ℕ → Run (World k e × Outcome)
  unfolding acquire
  send_ipv6 w a base d payload =
      if a.buffer == 0
      then done (w, negative eagain)
      else done (
        note k e (acquire w a (u32 (length payload + 62)) base d) (released a.buffer),
        negative eagain,
      )

  -- `FreeRTOS_TSN_sendto`; a destination that is NULL is `none`.
  unfoldable pub tsn_sendto :
      World k e → Answers → ℕ → List ℕ → Option Destination → Run (World k e × Outcome)
  unfolding send_ipv4 send_ipv6
  tsn_sendto w a s payload destination = deref (w.sockets s) >>= λ socket.
      deref (w.bases socket.base) >>= λ base. elim destination [
        | none ↦ done (w, negative einval)
        | some d ↦ if not base.is_bound then done (w, negative ebadf) else (elim (d.family) [
          | inet4 ↦ send_ipv4 w a socket base d payload
          | inet6 ↦ if u.use_ipv6 then send_ipv6 w a base d payload else done (w, negative einval)
          | other_family ↦ done (w, negative einval)
        ])
      ]
