-- ===== src/Wrapper/Receive/Runs.antt =====
-- prvDeliverFrame and prvReceiveUDPPacketTSN (source/FreeRTOS_TSN_Controller.c) on an item whose
-- port leads to a TSN socket.
use free_rtos_tsn_compatibil.Prelude.{
  ℕ, zero, suc, ◌+◌, ◌<◌, ◌≡◌, ◌≢◌, refl, sym, ap, ==-of-≢, ==-same, ltb, Bool, true, false, some,
  List, [], ◌∷◌, ◌++◌, get_elem?, if◌then◌else◌, arith,
}
use free_rtos_tsn_compatibil.Kernel.{Kernel, PointerQueues}
use free_rtos_tsn_compatibil.State.{done, update}
use free_rtos_tsn_compatibil.Bytes.{copy_out}
use free_rtos_tsn_compatibil.Frame.{Platform}
use free_rtos_tsn_compatibil.Memory.{Msghdr, IoVec}
use free_rtos_tsn_compatibil.World.{NetworkBuffer, BaseSocket, World, Effect, receive_event, note}
use free_rtos_tsn_compatibil.Sockets.{socket_from_port}
use free_rtos_tsn_compatibil.Controller.{
  Stack, is_errqueue, receive_udp_packet, dispatch, deliver_frame,
}
use free_rtos_tsn_compatibil.Wrapper.Receive.Accepted.{rx_item}

module _ (k : Kernel) (e : PointerQueues) (st : Stack) where
  -- The effects of a packet that a socket has received.
  abbrev pub received : BaseSocket → ℕ → List Effect → List Effect
  received bs base effects =
      if bs.has_event_group then effects ++ (receive_event base ∷ []) else effects

  noted :
      (b : Bool) (w : World k e) (x : Effect)
      → (if b then note k e w x else w)
        ≡ record w { effects = if b then w.effects ++ (x ∷ []) else w.effects }
  noted true w x = refl
  noted false w x = refl

  pub normal : (h : Msghdr) → h.flags ≡ 0 → is_errqueue h.flags ≡ false
  normal h z = rw (z) refl

  pub at_sender :
      (b0 b1 b2 b3 : ℕ) (bytes : List ℕ)
      → get_elem? bytes 26 ≡ some b0
      → get_elem? bytes 27 ≡ some b1
      → get_elem? bytes 28 ≡ some b2
      → get_elem? bytes 29 ≡ some b3
      → (j : ℕ) → j < 4
      → get_elem? (b0 ∷ b1 ∷ b2 ∷ b3 ∷ []) j ≡ get_elem? bytes (26 + j)
  at_sender b0 b1 b2 b3 bytes a0 a1 a2 a3 zero h = sym a0
  at_sender b0 b1 b2 b3 bytes a0 a1 a2 a3 (suc zero) h = sym a1
  at_sender b0 b1 b2 b3 bytes a0 a1 a2 a3 (suc (suc zero)) h = sym a2
  at_sender b0 b1 b2 b3 bytes a0 a1 a2 a3 (suc (suc (suc zero))) h = sym a3
  at_sender b0 b1 b2 b3 bytes a0 a1 a2 a3 (suc (suc (suc (suc j)))) h = absurd (omega arith)

  -- The frame is replaced by the message, and the buffer waits at the end of the list.
  pub receive_run :
      (w : World k e) (b msgh tsn base : ℕ) (hdr : Msghdr) (v : IoVec) (buf : NetworkBuffer)
      (bs : BaseSocket)
      → msgh ≢ 0
      → w.memory.messages msgh ≡ some hdr
      → is_errqueue hdr.flags ≡ false
      → w.memory.iovecs hdr.iov ≡ some (v ∷ [])
      → w.buffers b ≡ some buf
      → v.base ≡ buf.ethernet
      → v.offset ≡ 0
      → w.bases base ≡ some bs
      → receive_udp_packet k e w (rx_item b msgh) tsn base
        ≡ done (record w {
          buffers = update w.buffers b (record buf { ethernet = msgh });
          bases = update w.bases base (record bs { waiting = bs.waiting ++ (b ∷ []) });
          effects = received bs base w.effects;
        })
  unfolding receive_udp_packet
  receive_run w b msgh tsn base hdr v buf bs nm header normal iov there same front below =
      rw (==-of-≢ msgh 0 nm, header, normal, iov, there, same, ==-same buf.ethernet, front, below)
        (ap done (noted bs.has_event_group _ (receive_event base)))

  pub dispatch_run :
      (w : World k e) (b msgh port protocol base tsn : ℕ) (using : Bool)
      → socket_from_port k e st.lookup w port ≡ done (some (base, tsn))
      → tsn ≢ 0
      → dispatch k e st w (rx_item b msgh) using port protocol
        ≡ receive_udp_packet k e w (rx_item b msgh) tsn base
  unfolding dispatch
  dispatch_run w b msgh port protocol base tsn using found nt = rw (found, ==-of-≢ tsn 0 nt) refl

  module _ (p : Platform) where
    pub deliver_run :
        (w : World k e) (b msgh : ℕ) (buf : NetworkBuffer) (bytes : List ℕ) (using : Bool)
        (low high protocol b0 b1 b2 b3 : ℕ)
        → b ≢ 0
        → w.buffers b ≡ some buf
        → buf.interface ≢ 0
        → buf.end_point ≢ 0
        → ltb buf.data_length 14 ≡ false
        → ltb buf.data_length 34 ≡ false
        → w.memory.bytes buf.ethernet ≡ some bytes
        → get_elem? bytes 12 ≡ some low
        → get_elem? bytes 13 ≡ some high
        → p.load16 low high ≡ p.ipv4_frame_type
        → get_elem? bytes 23 ≡ some protocol
        → get_elem? bytes 26 ≡ some b0
        → get_elem? bytes 27 ≡ some b1
        → get_elem? bytes 28 ≡ some b2
        → get_elem? bytes 29 ≡ some b3
        → deliver_frame k e p st w (rx_item b msgh) using
          ≡ dispatch k e st
              (record w {
                buffers =
                    update w.buffers b
                      (record buf { ip_address = p.load32 (b0 ∷ b1 ∷ b2 ∷ b3 ∷ []) });
              })
              (rx_item b msgh)
              using
              buf.bound_port
              protocol
    unfolding deliver_frame copy_out
    deliver_run w b msgh buf bytes using low high protocol b0 b1 b2 b3 nb there ni ne headed long
          held c d ipv4 g a0 a1 a2 a3 =
        rw
          (
            ==-of-≢ b 0 nb,
            there,
            ==-of-≢ buf.interface 0 ni,
            ==-of-≢ buf.end_point 0 ne,
            headed,
            long,
            held,
            c,
            d,
            ipv4,
            ==-same p.ipv4_frame_type,
            a0,
            a1,
            a2,
            a3,
            g,
          )
          refl
