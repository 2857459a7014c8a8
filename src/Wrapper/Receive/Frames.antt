-- ===== src/Wrapper/Receive/Frames.antt =====
-- What prvHandleReceive (source/portable/NetworkInterface/Common/NetworkWrapper.c) reads from a
-- frame that carries UDP over IPv4, behind its VLAN tags.
use free_rtos_tsn_compatibil.Prelude.{
  ℕ, ◌+◌, ◌*◌, ◌^◌, ◌≤◌, ◌<◌, ◌≡◌, refl, ◌∙◌, ==-same, ltb, if◌then◌else◌, some, List, [], ◌∷◌,
  get_elem?, length, arith,
}
use free_rtos_tsn_compatibil.Kernel.{Kernel, PointerQueues}
use free_rtos_tsn_compatibil.State.{done, update}
use free_rtos_tsn_compatibil.Bytes.{copy_out}
use free_rtos_tsn_compatibil.Frame.{Platform, Buffer, read8, read16}
use free_rtos_tsn_compatibil.VlanTags.{number_of_tags}
use free_rtos_tsn_compatibil.World.{NetworkBuffer, World}
use free_rtos_tsn_compatibil.Wrapper.Strip.{strip_vlan_tag_lem}
use free_rtos_tsn_compatibil.Wrapper.Receive.{
  Surroundings, Header, read_header, read_ports, strip_in_place,
}

-- The bytes that are read: the frame type, the destination address, and the source and destination
-- ports.
pub record Fields : Type 0 where
  pub type0 : ℕ
  pub type1 : ℕ
  pub address0 : ℕ
  pub address1 : ℕ
  pub address2 : ℕ
  pub address3 : ℕ
  pub source0 : ℕ
  pub source1 : ℕ
  pub destination0 : ℕ
  pub destination1 : ℕ

-- A frame with UDP over IPv4 has them, behind tags of `shift` bytes.
pub record Datagram (p : Platform) (f : Fields) (bytes : List ℕ) (shift : ℕ) : Type 0 where
  pub at_type0 : get_elem? bytes (12 + shift) ≡ some f.type0
  pub at_type1 : get_elem? bytes (13 + shift) ≡ some f.type1
  pub is_ipv4 : p.load16 f.type0 f.type1 ≡ p.ipv4_frame_type
  pub at_protocol : get_elem? bytes (23 + shift) ≡ some 17
  pub at_address0 : get_elem? bytes (30 + shift) ≡ some f.address0
  pub at_address1 : get_elem? bytes (31 + shift) ≡ some f.address1
  pub at_address2 : get_elem? bytes (32 + shift) ≡ some f.address2
  pub at_address3 : get_elem? bytes (33 + shift) ≡ some f.address3
  pub at_source0 : get_elem? bytes (34 + shift) ≡ some f.source0
  pub at_source1 : get_elem? bytes (35 + shift) ≡ some f.source1
  pub at_destination0 : get_elem? bytes (36 + shift) ≡ some f.destination0
  pub at_destination1 : get_elem? bytes (37 + shift) ≡ some f.destination1

module _ (p : Platform) where
  -- The header and the ports that are read.
  abbrev pub header_of : Fields → Header
  header_of f = record {
    frame_type = p.ipv4_frame_type;
    protocol = 17;
    address = p.load32 (f.address0 ∷ f.address1 ∷ f.address2 ∷ f.address3 ∷ []);
    prefix = 34;
  }

  abbrev pub destination_of : Fields → ℕ
  destination_of f = p.load16 f.destination0 f.destination1

  abbrev pub source_of : Fields → ℕ
  source_of f = p.load16 f.source0 f.source1

  -- Where the tags are taken out, the same bytes stand further in front.
  pub Datagram-strip :
      (f : Fields) (bytes bytes' : List ℕ) (shift len : ℕ)
      → 38 ≤ len
      → ((j : ℕ)
          → j < len
          → get_elem? bytes' j ≡ get_elem? bytes (if ltb j 12 then j else j + shift))
      → Datagram p f bytes shift
      → Datagram p f bytes' 0
  Datagram-strip f bytes bytes' shift len long each d = record {
    at_type0 = each 12 (omega arith) ∙ d.at_type0;
    at_type1 = each 13 (omega arith) ∙ d.at_type1;
    is_ipv4 = d.is_ipv4;
    at_protocol = each 23 (omega arith) ∙ d.at_protocol;
    at_address0 = each 30 (omega arith) ∙ d.at_address0;
    at_address1 = each 31 (omega arith) ∙ d.at_address1;
    at_address2 = each 32 (omega arith) ∙ d.at_address2;
    at_address3 = each 33 (omega arith) ∙ d.at_address3;
    at_source0 = each 34 (omega arith) ∙ d.at_source0;
    at_source1 = each 35 (omega arith) ∙ d.at_source1;
    at_destination0 = each 36 (omega arith) ∙ d.at_destination0;
    at_destination1 = each 37 (omega arith) ∙ d.at_destination1;
  }

  module _ (s : Surroundings) where
    pub read_header_lem :
        (f : Fields) (frame : Buffer) (d : Datagram p f frame.bytes 0)
        → read_header p s frame ≡ done (header_of f)
    unfolding read_header read16 read8 copy_out
    read_header_lem f frame d =
        rw
          (
            d.at_type0,
            d.at_type1,
            d.is_ipv4,
            ==-same p.ipv4_frame_type,
            d.at_protocol,
            d.at_address0,
            d.at_address1,
            d.at_address2,
            d.at_address3,
          )
          refl

    pub read_ports_lem :
        (f : Fields) (frame : Buffer) (d : Datagram p f frame.bytes 0)
        → read_ports p s frame (header_of f) ≡ done (destination_of f, source_of f)
    unfolding read_ports read16 read8
    read_ports_lem f frame d =
        rw (d.at_destination0, d.at_destination1, d.at_source0, d.at_source1) refl

  module _ (s : Surroundings) (k : Kernel) (e : PointerQueues) where
    -- The state after the removal of the tags.
    abbrev pub stripped : World k e → ℕ → NetworkBuffer → Buffer → World k e
    stripped w b buf frame = record w {
      memory = record w.memory { bytes = update w.memory.bytes buf.ethernet frame.bytes };
      buffers = update w.buffers b (record buf { data_length = frame.data_length });
    }

    -- The descriptor has a frame with UDP over IPv4 behind `n` tags, which lies in its buffer, and
    -- `n` is what ucGetNumberOfTags counts: 0 for a frame without tags, 1 for a TPID 0x88a8, and 2
    -- for a TPID 0x8100. A single tag with the TPID 0x8100 is not among these frames.
    pub record Arrived (w : World k e) (b : ℕ) (buf : NetworkBuffer) (bytes : List ℕ) (n : ℕ)
        (f : Fields) : Type 0 where
      pub there : w.buffers b ≡ some buf
      pub held : w.memory.bytes buf.ethernet ≡ some bytes
      pub counted :
          number_of_tags p (record { data_length = buf.data_length; bytes = bytes }) ≡ done n
      pub inside : buf.data_length ≤ length bytes
      pub small : buf.data_length < 2 ^ 32
      pub long : 38 + 4 * n ≤ buf.data_length
      pub datagram : Datagram p f bytes (4 * n)

    -- A frame is another without its tags.
    pub record Untagged (frame : Buffer) (buf : NetworkBuffer) (bytes : List ℕ) (n : ℕ) (f : Fields)
        : Type 0 where
      pub shorter : frame.data_length + 4 * n ≡ buf.data_length
      pub each :
          (j : ℕ)
          → j < frame.data_length
          → get_elem? frame.bytes j ≡ get_elem? bytes (if ltb j 12 then j else j + 4 * n)
      pub fields : Datagram p f frame.bytes 0

    pub strip_in_place_lem :
        (w : World k e) (b : ℕ) (buf : NetworkBuffer) (bytes : List ℕ) (n : ℕ) (f : Fields)
        → Arrived w b buf bytes n f
        → (frame : Buffer) × (strip_in_place p s k e w b ≡ done (stripped w b buf frame, frame))
          × Untagged frame buf bytes n f
    unfolding strip_in_place
    strip_in_place_lem w b buf bytes n f x =
        let long = x.long in
        let (frame, gone, run, number, shorter, each) =
          strip_vlan_tag_lem p (record { data_length = buf.data_length; bytes = bytes }) n x.counted
            x.inside x.small (omega arith) in
        (
          frame,
          rw (x.there, x.held, run) refl,
          record {
            shorter = shorter;
            each = each;
            fields =
                Datagram-strip f bytes frame.bytes (4 * n) frame.data_length (omega arith) each
                  x.datagram;
          },
        )
