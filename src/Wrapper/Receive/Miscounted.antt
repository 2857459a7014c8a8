-- ===== src/Wrapper/Receive/Miscounted.antt =====
-- What prvHandleReceive (source/portable/NetworkInterface/Common/NetworkWrapper.c) makes of a
-- frame from which the removal of tags has taken the frame type of IP.
use free_rtos_tsn_compatibil.Prelude.{
  ℕ, ◌+◌, ◌^◌, ◌≤◌, ◌<◌, ◌≡◌, ◌≢◌, refl, ◌∙◌, ==-of-≢, ==-same, Option, some, List, get_elem?,
  length, ltb, false, arith,
}
use free_rtos_tsn_compatibil.Kernel.{Kernel, PointerQueues, Item}
use free_rtos_tsn_compatibil.State.{done, update}
use free_rtos_tsn_compatibil.State.Heap.{read_back}
use free_rtos_tsn_compatibil.Frame.{Platform, Buffer, read8, read16}
use free_rtos_tsn_compatibil.VlanTags.{number_of_tags}
use free_rtos_tsn_compatibil.World.{NetworkBuffer, World}
use free_rtos_tsn_compatibil.Wrapper.Strip.{strip_vlan_tag_lem}
use free_rtos_tsn_compatibil.Wrapper.Receive.{
  Granted, Surroundings, item_malloc, read_header, read_ports, strip_in_place, message_for,
  handle_receive,
}
use free_rtos_tsn_compatibil.Wrapper.Receive.Frames.{stripped}
use free_rtos_tsn_compatibil.Wrapper.Receive.Accepted.{rx_item}

-- The descriptor has a frame with a single tag, with the TPID 0x8100, and `low` and `high` where
-- the IP header behind it, which starts at the byte 18, has its total length.
pub record SingleTagged (p : Platform) (k : Kernel) (e : PointerQueues) (w : World k e) (b : ℕ)
    (buf : NetworkBuffer) (bytes : List ℕ) (low high : ℕ) : Type 0 where
  pub there : w.buffers b ≡ some buf
  pub held : w.memory.bytes buf.ethernet ≡ some bytes
  pub tpid0 : ℕ
  pub tpid1 : ℕ
  pub at_tpid0 : get_elem? bytes 12 ≡ some tpid0
  pub at_tpid1 : get_elem? bytes 13 ≡ some tpid1
  pub tagged : p.ntohs (p.load16 tpid0 tpid1) ≡ 0x8100
  pub at_low : get_elem? bytes 20 ≡ some low
  pub at_high : get_elem? bytes 21 ≡ some high
  pub inside : buf.data_length ≤ length bytes
  pub small : buf.data_length < 2 ^ 32
  pub long : 22 ≤ buf.data_length

module _ (p : Platform) (s : Surroundings) (k : Kernel) (e : PointerQueues) where
  two_counted :
      (w : World k e) (b : ℕ) (buf : NetworkBuffer) (bytes : List ℕ) (low high : ℕ)
      (x : SingleTagged p k e w b buf bytes low high)
      → number_of_tags p (record { data_length = buf.data_length; bytes = bytes }) ≡ done 2
  unfolding number_of_tags read16 read8
  two_counted w b buf bytes low high x =
      let long = x.long in
      let whole : ltb buf.data_length 14 ≡ false = ground arith in
      rw (whole, x.at_tpid0, x.at_tpid1, x.tagged) refl

  no_ip :
      (frame : Buffer) (low high : ℕ)
      → get_elem? frame.bytes 12 ≡ some low
      → get_elem? frame.bytes 13 ≡ some high
      → p.load16 low high ≢ p.ipv4_frame_type
      → p.load16 low high ≢ p.ipv6_frame_type
      → read_header p s frame
        ≡ done (record { frame_type = p.load16 low high; protocol = 255; address = 0; prefix = 14 })
  unfolding read_header read16 read8
  no_ip frame low high a b n4 n6 =
      rw
        (
          a,
          b,
          ==-of-≢ (p.load16 low high) p.ipv4_frame_type n4,
          ==-of-≢ (p.load16 low high) p.ipv6_frame_type n6,
        )
        refl

  no_message_run :
      (g : Granted) (w : World k e) (items : ℕ → Option Item) (b : ℕ) (buf : NetworkBuffer)
      (frame : Buffer) (frame_type : ℕ)
      → g.item ≢ 0
      → strip_in_place p s k e w b ≡ done (stripped p s k e w b buf frame, frame)
      → read_header p s frame
        ≡ done (record { frame_type = frame_type; protocol = 255; address = 0; prefix = 14 })
      → (w' : World k e) × (handle_receive p s k e g w items b
          ≡ done (w', update items g.item (rx_item b 0), g.item))
        × (w'.buffers b
            ≡ some (record buf { data_length = frame.data_length; bound_port = 0; port = 0 }))
        × (w'.memory.bytes buf.ethernet ≡ some frame.bytes)
  unfolding handle_receive item_malloc read_ports message_for
  no_message_run g w items b buf frame frame_type ni strip header =
      let w1 = stripped p s k e w b buf frame in
      let buf' = record buf { data_length = frame.data_length; bound_port = 0; port = 0 } in
      (
        record w1 { buffers = update w1.buffers b buf' },
        rw (strip, header, ==-same b, ==-of-≢ g.item 0 ni) refl,
        read_back w1.buffers b buf',
        read_back w.memory.bytes buf.ethernet frame.bytes,
      )

  -- For a frame with a single tag with the TPID 0x8100, in a buffer that it lies in, where the two
  -- bytes of the total length of IP are not those of a frame type of IP, and with memory for the
  -- item: two tags are counted and eight bytes removed, with the frame type of IP among them.
  -- prvHandleReceive ends without a fault and returns an item without a message, whether or not a
  -- TSN socket is bound to the port of the datagram; the descriptor has the ports 0, its length is
  -- shorter by 8, and the total length of IP stands where the frame type was.
  pub handle_receive-SingleTagged :
      (g : Granted) (w : World k e) (items : ℕ → Option Item) (b : ℕ) (buf : NetworkBuffer)
      (bytes : List ℕ) (low high : ℕ)
      → SingleTagged p k e w b buf bytes low high
      → p.load16 low high ≢ p.ipv4_frame_type
      → p.load16 low high ≢ p.ipv6_frame_type
      → g.item ≢ 0
      → (w' : World k e) × (frame : Buffer) × (handle_receive p s k e g w items b
          ≡ done (w', update items g.item (rx_item b 0), g.item))
        × (w'.buffers b
            ≡ some (record buf { data_length = frame.data_length; bound_port = 0; port = 0 }))
        × (w'.memory.bytes buf.ethernet ≡ some frame.bytes)
        × (frame.data_length + 8 ≡ buf.data_length)
        × (get_elem? frame.bytes 12 ≡ some low)
        × (get_elem? frame.bytes 13 ≡ some high)
  unfolding strip_in_place
  handle_receive-SingleTagged g w items b buf bytes low high x n4 n6 ni =
      let long = x.long in
      let (frame, gone, run, number, shorter, each) =
        strip_vlan_tag_lem p (record { data_length = buf.data_length; bytes = bytes }) 2
          (two_counted w b buf bytes low high x) x.inside x.small (omega arith) in
      let at12 = each 12 (omega arith) ∙ x.at_low in
      let at13 = each 13 (omega arith) ∙ x.at_high in
      let (w', ran, descriptor, held) =
        no_message_run g w items b buf frame (p.load16 low high) ni (rw (x.there, x.held, run) refl)
          (no_ip frame low high at12 at13 n4 n6) in
      (w', frame, ran, descriptor, held, shorter, at12, at13)
