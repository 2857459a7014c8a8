-- ===== src/Sockets/Receive/Payload.antt =====
-- What FreeRTOS_TSN_recvmsg takes for the payload of a frame that FreeRTOS_TSN_sendto prepared
-- (source/FreeRTOS_TSN_Sockets.c).
use free_rtos_tsn_compatibil.Prelude.{
  ℕ, ◌+◌, ◌-◌, ◌%◌, ◌^◌, ◌≤◌, ◌<◌, ◌≡◌, refl, ap, ◌∙◌, true, ==-same, some, List, get_elem?, length,
  arith,
}
use free_rtos_tsn_compatibil.State.{done}
use free_rtos_tsn_compatibil.Frame.{Platform}
use free_rtos_tsn_compatibil.World.{NetworkBuffer}
use free_rtos_tsn_compatibil.Sockets.Send.{IpConfig, EndPoint, prepare_udpv4}
use free_rtos_tsn_compatibil.Sockets.Send.Headers.{prepare-Prepared}
use free_rtos_tsn_compatibil.Sockets.Receive.{read_protocol, move_to_start_of_payload}

module _ (p : Platform) where
  pub start_run :
      (frame : List ℕ) (size l0 h0 l1 h1 length_field : ℕ)
      → get_elem? frame 12 ≡ some l0
      → get_elem? frame 13 ≡ some h0
      → p.load16 l0 h0 ≡ p.ipv4_frame_type
      → get_elem? frame 23 ≡ some 17
      → get_elem? frame 38 ≡ some l1
      → get_elem? frame 39 ≡ some h1
      → p.ntohs (p.load16 l1 h1) ≡ length_field
      → move_to_start_of_payload p frame 0 size ≡ done (42, length_field)
  unfolding move_to_start_of_payload read_protocol
  start_run frame size l0 h0 l1 h1 length_field a b kind protocol c d read =
      rw (a, b, kind, ==-same p.ipv4_frame_type, protocol, c, d, read) refl

module _ (p : Platform) (u : IpConfig) where
  -- The frame that prvPrepareBufferUDPv4 writes for a packet whose UDP length fits in 16 bits is
  -- read by prvMoveToStartOfPayload as a payload that starts behind the headers, at byte 42, but
  -- has 8 bytes more than the payload that was sent: the size of the UDP header, which the field
  -- counts. The data length of the buffer is that of the packet, and the frame has room for the
  -- packet and for the smallest packet.
  pub move_to_start-prepare :
      (class : ℕ) (mac : ℕ → ℕ) (end_point : EndPoint) (buf : NetworkBuffer) (bytes : List ℕ)
      (size : ℕ)
      → 42 ≤ buf.data_length
      → buf.data_length - 34 < 2 ^ 16
      → buf.data_length ≤ length bytes
      → u.minimum_packet_bytes ≤ length bytes
      → (buf' : NetworkBuffer) × (frame : List ℕ) × (prepare_udpv4 p u class
            (some (mac, end_point))
            buf
            bytes
          ≡ done (buf', frame, true))
        × (move_to_start_of_payload p frame 0 size ≡ done (42, (buf.data_length - 42) + 8))
  move_to_start-prepare class mac end_point buf bytes size headed small inside padded =
      let x =
        prepare-Prepared p u class mac end_point buf bytes headed (omega arith) inside padded in
      let l = ((buf.data_length - 42) + 8) % 2 ^ 16 in
      let same : l ≡ (buf.data_length - 42) + 8 = omega arith in
      (
        x.buffer,
        x.frame,
        x.run,
        start_run p x.frame size (p.low_byte p.ipv4_frame_type) (p.high_byte p.ipv4_frame_type)
            (p.low_byte (p.htons l)) (p.high_byte (p.htons l)) ((buf.data_length - 42) + 8)
            (x.headers 12 (omega arith)) (x.headers 13 (omega arith))
            (p.load_store p.ipv4_frame_type p.ipv4_bound) (x.headers 23 (omega arith))
            (x.headers 38 (omega arith)) (x.headers 39 (omega arith))
            (ap p.ntohs (p.load_store (p.htons l) (p.htons_bound l (omega arith)))
              ∙ p.ntohs_htons l (omega arith)
              ∙ same),
      )
