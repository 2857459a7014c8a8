-- ===== src/Sockets/Receive/Datagram.antt =====
-- A packet with UDP over IPv4 in the message that FreeRTOS_TSN_recvmsg takes from a socket
-- (source/FreeRTOS_TSN_Sockets.c).
use free_rtos_tsn_compatibil.Prelude.{
  ℕ, ◌+◌, ◌≤◌, ◌≡◌, ◌≢◌, ◌⊎◌, some, List, [], ◌∷◌, get_elem?, length, arith,
}
use free_rtos_tsn_compatibil.Frame.{Platform}
use free_rtos_tsn_compatibil.Memory.{Memory, Msghdr, IoVec}
use free_rtos_tsn_compatibil.Ancillary.Freed.{IsNullOrBytes}
use free_rtos_tsn_compatibil.Sockets.Receive.Payload.{start_run}
use free_rtos_tsn_compatibil.Sockets.Receive.Copied.{IsPacket}

module _ (p : Platform) where
  -- The message of a packet with UDP over IPv4 and `n` bytes of data: the length field of UDP
  -- counts them and the 8 bytes of its header. The array of the frame has 8 bytes behind the data,
  -- at least.
  pub record IsDatagram (m : Memory) (msgh : ℕ) (h : Msghdr) (v : IoVec) (frame : List ℕ) (n : ℕ)
      : Type 0 where
    pub not_null : msgh ≢ 0
    pub header : m.messages msgh ≡ some h
    pub iov : h.iov ≢ 0
    pub one : h.iovlen ≡ 1
    pub vector : m.iovecs h.iov ≡ some (v ∷ [])
    pub front : v.offset ≡ 0
    pub held : m.bytes v.base ≡ some frame
    pub type0 : ℕ
    pub type1 : ℕ
    pub at_type0 : get_elem? frame 12 ≡ some type0
    pub at_type1 : get_elem? frame 13 ≡ some type1
    pub is_ipv4 : p.load16 type0 type1 ≡ p.ipv4_frame_type
    pub at_protocol : get_elem? frame 23 ≡ some 17
    pub length0 : ℕ
    pub length1 : ℕ
    pub at_length0 : get_elem? frame 38 ≡ some length0
    pub at_length1 : get_elem? frame 39 ≡ some length1
    pub is_length : p.ntohs (p.load16 length0 length1) ≡ 8 + n
    pub inside : 50 + n ≤ length frame
    pub name : IsNullOrBytes m h.name
    pub control : IsNullOrBytes m h.control
    pub apart : h.control ≢ h.name ⊎ (h.control ≡ 0)

  pub datagram-IsPacket :
      (m : Memory) (msgh : ℕ) (h : Msghdr) (v : IoVec) (frame : List ℕ) (n : ℕ)
      (x : IsDatagram m msgh h v frame n)
      → IsPacket p m msgh h v frame 42 (8 + n)
  datagram-IsPacket m msgh h v frame n x = record {
    not_null = x.not_null;
    header = x.header;
    iov = x.iov;
    one = x.one;
    vector = x.vector;
    held = x.held;
    start = rw (x.front) (
        start_run p frame v.len x.type0 x.type1 x.length0 x.length1 (8 + n) x.at_type0 x.at_type1
          x.is_ipv4 x.at_protocol x.at_length0 x.at_length1 x.is_length);
    inside = let long = x.inside in omega arith;
    name = x.name;
    control = x.control;
    apart = x.apart;
  }
