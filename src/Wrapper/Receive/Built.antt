-- ===== src/Wrapper/Receive/Built.antt =====
-- The name and the payload of the message that prvHandleReceive
-- (source/portable/NetworkInterface/Common/NetworkWrapper.c) builds.
use free_rtos_tsn_compatibil.Prelude.{
  ℕ, ◌≡◌, ◌≢◌, refl, ◌∙◌, inl, inr, ◌==◌, ==-of-≢, ==-same, Bool-cases, some, List, [], ◌∷◌, length,
  arith,
}
use free_rtos_tsn_compatibil.Kernel.{Kernel, PointerQueues}
use free_rtos_tsn_compatibil.State.{done, update}
use free_rtos_tsn_compatibil.Frame.{Platform}
use free_rtos_tsn_compatibil.Timebase.Handle.{TimebaseHandle, initial, set_all}
use free_rtos_tsn_compatibil.Memory.{Memory, Msghdr, SockAddr, cleared, size_of_pointer}
use free_rtos_tsn_compatibil.Ancillary.{msg_malloc, msg_fill_name, msg_fill_payload}
use free_rtos_tsn_compatibil.World.{NetworkBuffer, TsnSocket, World}
use free_rtos_tsn_compatibil.Wrapper.Control.{control_fill_for_rx}
use free_rtos_tsn_compatibil.Wrapper.Receive.{
  Granted, Surroundings, Header, fill_destination, build_message,
}
use free_rtos_tsn_compatibil.State.Heap.{read_back, read_other}
use free_rtos_tsn_compatibil.Wrapper.Receive.Messages.{fill_for_rx-Attached}

module _ (p : Platform) (s : Surroundings) where
  -- The address of the sender's packet, as the code writes it.
  abbrev pub socket_address : Header → ℕ → SockAddr
  socket_address h port = record {
    sin_len = size_of_pointer;
    sin_family = s.af_inet;
    sin_port = port;
    sin_flowinfo = 0;
    sin_address = h.address;
  }

  -- The memory after the name was filled, or not: only the message and the name have changed.
  pub record Named (g : Granted) (m m' : Memory) (h : Header) (port : ℕ) (hdr : Msghdr)
      : Type 0 where
    pub name : ℕ
    pub namelen : ℕ
    pub header : m'.messages g.message ≡ some (record hdr { name = name; namelen = namelen })
    pub iovecs : m'.iovecs ≡ m.iovecs
    pub others : (a : ℕ) → a ≢ g.name → m'.bytes a ≡ m.bytes a
    pub told :
        g.name ≢ 0
        → (name ≡ g.name) × (m'.bytes g.name ≡ some (s.layout.encode (socket_address h port)))

  fill_destination-Named :
      (g : Granted) (m : Memory) (h : Header) (port : ℕ) (hdr : Msghdr)
      → m.messages g.message ≡ some hdr
      → h.frame_type ≡ p.ipv4_frame_type
      → (m' : Memory) × (fill_destination p s g m h port ≡ done m') × Named g m m' h port hdr
  unfolding fill_destination msg_fill_name
  fill_destination-Named g m h port hdr there ipv4 = elim (Bool-cases (g.name == 0)) [
    | inl z ↦ (
      m,
      rw (ipv4, ==-same p.ipv4_frame_type, z) refl,
      record {
        name = hdr.name;
        namelen = hdr.namelen;
        header = there;
        iovecs = refl;
        others = λ a ne. refl;
        told = λ nz. absurd (nz (ground arith));
      },
    )
    | inr nz ↦ (
      record m {
        messages =
            update m.messages g.message (record hdr { name = g.name; namelen = size_of_pointer });
        bytes = update m.bytes g.name (s.layout.encode (socket_address h port));
      },
      rw (ipv4, ==-same p.ipv4_frame_type, nz, there) refl,
      record {
        name = g.name;
        namelen = size_of_pointer;
        header = read_back m.messages g.message _;
        iovecs = refl;
        others = λ a ne. read_other m.bytes g.name a _ ne;
        told = λ nz. (refl, read_back m.bytes g.name _);
      },
    )
  ]

  -- A message that carries the frame of a buffer, with the address where there was memory for it.
  pub record Carries (g : Granted) (m' : Memory) (buf : NetworkBuffer) (h : Header) (port : ℕ)
      : Type 0 where
    pub hdr : Msghdr
    pub header : m'.messages g.message ≡ some hdr
    pub iov : hdr.iov ≡ g.iov
    pub iovlen : hdr.iovlen ≡ 1
    pub flags : hdr.flags ≡ 0
    pub payload :
        m'.iovecs g.iov
        ≡ some (record { base = buf.ethernet; offset = 0; len = buf.data_length } ∷ [])
    pub told :
        g.name ≢ 0
        → (hdr.name ≡ g.name) × (m'.bytes g.name ≡ some (s.layout.encode (socket_address h port)))

  module _ (k : Kernel) (e : PointerQueues) where
    build_run :
        (g : Granted) (w : World k e) (b : ℕ) (h : Header) (port tsn n : ℕ) (buf : NetworkBuffer)
        (m2 m3 : Memory) (hdr : Msghdr)
        → g.message ≢ 0
        → g.iov ≢ 0
        → control_fill_for_rx p k e s.time_of s.timebase g.control g.control_bytes
            (record w {
              memory = record w.memory { messages = update w.memory.messages g.message cleared };
            })
            g.message
            tsn
          ≡ done (m2, n)
        → fill_destination p s g m2 h port ≡ done m3
        → w.buffers b ≡ some buf
        → m3.messages g.message ≡ some hdr
        → build_message p s k e g w b h port tsn
          ≡ done (record m3 {
            iovecs =
                update m3.iovecs g.iov
                  (record { base = buf.ethernet; offset = 0; len = buf.data_length } ∷ []);
            messages = update m3.messages g.message (record hdr { iov = g.iov; iovlen = 1 });
          })
    unfolding build_message msg_malloc msg_fill_payload
    build_run g w b h port tsn n buf m2 m3 hdr nm ni filled named there header =
        rw (==-of-≢ g.message 0 nm, filled, named, there, ==-of-≢ g.iov 0 ni, header) refl

    pub build_message-Carries :
        (hs : List TimebaseHandle) (g : Granted) (w : World k e) (b : ℕ) (h : Header) (port tsn : ℕ)
        (buf : NetworkBuffer) (socket : TsnSocket e)
        → s.timebase ≡ set_all initial hs
        → g.message ≢ 0
        → g.iov ≢ 0
        → tsn ≢ 0
        → length g.control_bytes ≡ 36
        → w.sockets tsn ≡ some socket
        → w.buffers b ≡ some buf
        → h.frame_type ≡ p.ipv4_frame_type
        → buf.ethernet ≢ g.control
        → buf.ethernet ≢ g.name
        → (m : Memory) × (build_message p s k e g w b h port tsn ≡ done m)
          × Carries g m buf h port
          × (m.bytes buf.ethernet ≡ w.memory.bytes buf.ethernet)
    build_message-Carries hs g w b h port tsn buf socket timed nm ni nt room allocated there ipv4 nc
          nn =
        let m1 = record w.memory { messages = update w.memory.messages g.message cleared } in
        let (m2, n, filled, a) =
          fill_for_rx-Attached p k e s.time_of hs g.control g.control_bytes
            (record w { memory = m1 }) g.message tsn cleared socket nm nt
            (read_back w.memory.messages g.message cleared) allocated room in
        let (m3, named, x) = fill_destination-Named g m2 h port _ a.header ipv4 in
        (
          _,
          build_run g w b h port tsn n buf m2 m3 _ nm ni (rw (timed) filled) named there x.header,
          record {
            hdr = _;
            header = read_back m3.messages g.message _;
            iov = refl;
            iovlen = refl;
            flags = refl;
            payload = read_back m3.iovecs g.iov _;
            told = x.told;
          },
          x.others buf.ethernet nn ∙ a.others buf.ethernet nc,
        )
