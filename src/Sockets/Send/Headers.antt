-- ===== src/Sockets/Send/Headers.antt =====
-- The frame that `prvPrepareBufferUDPv4` (source/FreeRTOS_TSN_Sockets.c) leaves.
use free_rtos_tsn_compatibil.Prelude.{
  ℕ, zero, suc, ◌+◌, ◌-◌, ◌^◌, ◌≤◌, ◌<◌, ◌≡◌, refl, ap, ◌∙◌, inl, inr, true, ltb, Bool-cases,
  Option, some, List, get_elem?, length, arith,
}
use free_rtos_tsn_compatibil.State.{done, u32}
use free_rtos_tsn_compatibil.Bytes.{store_all}
use free_rtos_tsn_compatibil.Bytes.Stores.{after_stores, AreWithin, store_all_lem}
use free_rtos_tsn_compatibil.Frame.{Platform}
use free_rtos_tsn_compatibil.World.{NetworkBuffer}
use free_rtos_tsn_compatibil.Sockets.Send.{
  IpConfig, EndPoint, zeros, ethernet_destination, udp_headers, prepare_udpv4,
}

zeros-within : (at m n : ℕ) → at + m ≤ n → AreWithin n (zeros at m)
unfolding zeros
zeros-within at zero n h = tt
zeros-within at (suc m) n h = (omega arith, zeros-within (at + 1) m n (omega arith))

after-zeros : (at m j : ℕ) (old : Option ℕ) → j < at → after_stores (zeros at m) j old ≡ old
unfolding zeros
after-zeros at zero j old h = refl
after-zeros at (suc m) j old h = ground (arith, after-zeros (at + 1) m j old)

destination_again :
    (mac : ℕ → ℕ) (j : ℕ) (old : Option ℕ)
    → after_stores (ethernet_destination mac) j (after_stores (ethernet_destination (λ i. 0)) j old)
      ≡ after_stores (ethernet_destination mac) j old
destination_again mac j old = ground arith

module _ (p : Platform) (u : IpConfig) where
  -- The frame after a call with an answer: as many bytes as before, and at each place of the
  -- headers the byte that was stored last.
  pub record Prepared (class : ℕ) (mac : ℕ → ℕ) (end_point : EndPoint) (buf : NetworkBuffer)
      (bytes : List ℕ) : Type 0 where
    pub frame : List ℕ
    pub buffer : NetworkBuffer
    pub run : prepare_udpv4 p u class (some (mac, end_point)) buf bytes ≡ done (buffer, frame, true)
    pub length_frame : length frame ≡ length bytes
    pub same_ethernet : buffer.ethernet ≡ buf.ethernet
    pub same_length : buf.data_length ≤ buffer.data_length
    pub headers :
        (j : ℕ)
        → j < buf.data_length
        → get_elem? frame j
          ≡ after_stores
              (udp_headers p u
                (buf.data_length - 42)
                class
                end_point
                buf.ip_address
                buf.port
                buf.bound_port)
              j
              (after_stores (ethernet_destination mac) j (get_elem? bytes j))

  headers-within :
      (payload class : ℕ) (end_point : EndPoint) (ip_address port bound_port : ℕ)
      → AreWithin 42 (udp_headers p u payload class end_point ip_address port bound_port)
  headers-within payload class end_point ip_address port bound_port = omega arith

  padded_run :
      (class : ℕ) (mac : ℕ → ℕ) (end_point : EndPoint) (buf : NetworkBuffer)
      (bytes b1 b2 b3 b4 : List ℕ)
      → u32 (buf.data_length + 2 ^ 32 - 42) ≡ buf.data_length - 42
      → ltb buf.data_length u.minimum_packet_bytes ≡ true
      → store_all (ethernet_destination (λ i. 0)) bytes ≡ done b1
      → store_all (ethernet_destination mac) b1 ≡ done b2
      → store_all
          (udp_headers p u
            (buf.data_length - 42)
            class
            end_point
            buf.ip_address
            buf.port
            buf.bound_port)
          b2
        ≡ done b3
      → store_all (zeros buf.data_length (u.minimum_packet_bytes - buf.data_length)) b3 ≡ done b4
      → prepare_udpv4 p u class (some (mac, end_point)) buf bytes
        ≡ done (
          record buf { end_point = end_point.address; data_length = u.minimum_packet_bytes },
          b4,
          true,
        )
  unfolding prepare_udpv4
  padded_run class mac end_point buf bytes b1 b2 b3 b4 n short r1 r2 r3 r4 =
      rw (r1, r2, n, r3, short, r4) refl

  padded_frame :
      (class : ℕ) (mac : ℕ → ℕ) (end_point : EndPoint) (buf : NetworkBuffer)
      (bytes b1 b2 b3 : List ℕ)
      → 42 ≤ buf.data_length
      → buf.data_length < 2 ^ 32
      → store_all (ethernet_destination (λ i. 0)) bytes ≡ done b1
      → store_all (ethernet_destination mac) b1 ≡ done b2
      → store_all
          (udp_headers p u
            (buf.data_length - 42)
            class
            end_point
            buf.ip_address
            buf.port
            buf.bound_port)
          b2
        ≡ done b3
      → length b3 ≡ length bytes
      → buf.data_length ≤ length bytes
      → u.minimum_packet_bytes ≤ length bytes
      → ((j : ℕ)
          → get_elem? b3 j
            ≡ after_stores
                (udp_headers p u
                  (buf.data_length - 42)
                  class
                  end_point
                  buf.ip_address
                  buf.port
                  buf.bound_port)
                j
                (after_stores (ethernet_destination mac) j (get_elem? bytes j)))
      → Prepared class mac end_point buf bytes
  unfolding prepare_udpv4
  padded_frame class mac end_point buf bytes b1 b2 b3 headed small r1 r2 r3 len inside padded each =
      let n : u32 (buf.data_length + 2 ^ 32 - 42) ≡ buf.data_length - 42 = omega arith in
      elim (Bool-cases (ltb buf.data_length u.minimum_packet_bytes)) [
        | inl short ↦
            let fits : buf.data_length + (u.minimum_packet_bytes - buf.data_length)
                ≤ u.minimum_packet_bytes =
              ground arith in
            let (b4, r4, l4, e4) =
              store_all_lem (zeros buf.data_length (u.minimum_packet_bytes - buf.data_length))
                u.minimum_packet_bytes b3
                (zeros-within buf.data_length (u.minimum_packet_bytes - buf.data_length)
                  u.minimum_packet_bytes fits)
                (omega arith) in
            record {
              frame = b4;
              buffer = record buf {
                end_point = end_point.address;
                data_length = u.minimum_packet_bytes;
              };
              run = padded_run class mac end_point buf bytes b1 b2 b3 b4 n short r1 r2 r3 r4;
              length_frame = l4 ∙ len;
              same_ethernet = refl;
              same_length = ground arith;
              headers = λ j below.
                  e4 j
                  ∙ after-zeros buf.data_length (u.minimum_packet_bytes - buf.data_length) j
                      (get_elem? b3 j) below
                  ∙ each j;
            }
        | inr long ↦ record {
          frame = b3;
          buffer = record buf { end_point = end_point.address };
          run = rw (r1, r2, n, r3, long) refl;
          length_frame = len;
          same_ethernet = refl;
          same_length = omega arith;
          headers = λ j below. each j;
        }
      ]

  pub prepare-Prepared :
      (class : ℕ) (mac : ℕ → ℕ) (end_point : EndPoint) (buf : NetworkBuffer) (bytes : List ℕ)
      → 42 ≤ buf.data_length
      → buf.data_length < 2 ^ 32
      → buf.data_length ≤ length bytes
      → u.minimum_packet_bytes ≤ length bytes
      → Prepared class mac end_point buf bytes
  prepare-Prepared class mac end_point buf bytes headed small inside padded =
      let (b1, r1, l1, e1) =
        store_all_lem (ethernet_destination (λ i. 0)) 6 bytes (omega arith) (omega arith) in
      let (b2, r2, l2, e2) =
        store_all_lem (ethernet_destination mac) 6 b1 (omega arith) (omega arith) in
      let (b3, r3, l3, e3) =
        store_all_lem
          (udp_headers p u (buf.data_length - 42) class end_point buf.ip_address buf.port
            buf.bound_port)
          42 b2
          (headers-within (buf.data_length - 42) class end_point buf.ip_address buf.port
            buf.bound_port)
          (omega arith) in
      let each : (j : ℕ)
          → get_elem? b3 j
            ≡ after_stores
                (udp_headers p u (buf.data_length - 42) class end_point buf.ip_address buf.port
                  buf.bound_port)
                j (after_stores (ethernet_destination mac) j (get_elem? bytes j)) =
        λ j.
          e3 j
          ∙ ap
              (after_stores
                (udp_headers p u (buf.data_length - 42) class end_point buf.ip_address buf.port
                  buf.bound_port)
                j)
              (e2 j
                ∙ ap (after_stores (ethernet_destination mac) j) (e1 j)
                ∙ destination_again mac j (get_elem? bytes j)) in
      padded_frame class mac end_point buf bytes b1 b2 b3 headed small r1 r2 r3 (omega arith)
        (omega arith) padded each
