-- ===== src/Wrapper/Receive/Accepted.antt =====
-- A frame with UDP over IPv4 for the port of a TSN socket becomes an item with a message, in
-- prvHandleReceive (source/portable/NetworkInterface/Common/NetworkWrapper.c).
use free_rtos_tsn_compatibil.Prelude.{
  ℕ, ◌≡◌, ◌≢◌, refl, ap, ◌∙◌, ==-of-≢, ==-same, true, Option, some, List, [], ◌∷◌, length,
}
use free_rtos_tsn_compatibil.Kernel.{Kernel, PointerQueues, Item, network_rx}
use free_rtos_tsn_compatibil.State.{done, update}
use free_rtos_tsn_compatibil.Frame.{Platform, Buffer}
use free_rtos_tsn_compatibil.Timebase.Handle.{TimebaseHandle, initial, set_all}
use free_rtos_tsn_compatibil.Memory.{Memory}
use free_rtos_tsn_compatibil.World.{NetworkBuffer, TsnSocket, World}
use free_rtos_tsn_compatibil.Sockets.{find_socket, socket_from_port}
use free_rtos_tsn_compatibil.Wrapper.Receive.{
  Granted, Surroundings, Header, item_malloc, read_header, read_ports, strip_in_place,
  build_message, message_for, handle_receive,
}
use free_rtos_tsn_compatibil.Wrapper.Receive.Frames.{
  Fields, header_of, destination_of, source_of, read_header_lem, read_ports_lem, stripped, Arrived,
  Untagged, strip_in_place_lem,
}
use free_rtos_tsn_compatibil.State.Heap.{read_back}
use free_rtos_tsn_compatibil.Wrapper.Receive.Built.{Carries, build_message-Carries}

module _ (k : Kernel) (e : PointerQueues) where
  -- The lookup of a TSN socket depends on the sockets alone.
  pub find_socket_same :
      (w w' : World k e) (key : ℕ) (listed : List ℕ)
      → w'.sockets ≡ w.sockets
      → find_socket k e w' key listed ≡ find_socket k e w key listed
  unfolding find_socket
  find_socket_same w w' key [] same = refl
  find_socket_same w w' key (x ∷ xs) same = rw (same, find_socket_same w w' key xs same) refl

  -- The list of bound sockets leads from the port to this socket.
  pub record Listens (w : World k e) (port base tsn : ℕ) (socket : TsnSocket e) : Type 0 where
    pub listed : List ℕ
    pub bound : w.bound ≡ some listed
    pub found : find_socket k e w port listed ≡ done (some (base, tsn))
    pub not_null : tsn ≢ 0
    pub allocated : w.sockets tsn ≡ some socket

  pub Listens-same :
      (w w' : World k e) (port base tsn : ℕ) (socket : TsnSocket e)
      → w'.sockets ≡ w.sockets
      → w'.bound ≡ w.bound
      → Listens w port base tsn socket
      → Listens w' port base tsn socket
  Listens-same w w' port base tsn socket same bound l = record {
    listed = l.listed;
    bound = bound ∙ l.bound;
    found = find_socket_same w w' port l.listed same ∙ l.found;
    not_null = l.not_null;
    allocated = ap (λ h. h tsn) same ∙ l.allocated;
  }

  pub socket_from_port-Listens :
      (lookup : ℕ → ℕ) (w w' : World k e) (port base tsn : ℕ) (socket : TsnSocket e)
      → w'.sockets ≡ w.sockets
      → w'.bound ≡ w.bound
      → Listens w port base tsn socket
      → socket_from_port k e lookup w' port ≡ done (some (base, tsn))
  unfolding socket_from_port
  socket_from_port-Listens lookup w w' port base tsn socket same bound x =
      rw (bound, x.bound, find_socket_same w w' port x.listed same, x.found) refl

-- The allocator has memory for all but the name and the control buffer, which it may have, apart
-- from the frame.
pub record IsGranted (g : Granted) (ethernet : ℕ) : Type 0 where
  pub message : g.message ≢ 0
  pub iov : g.iov ≢ 0
  pub item : g.item ≢ 0
  pub room : length g.control_bytes ≡ 36
  pub control_apart : ethernet ≢ g.control
  pub name_apart : ethernet ≢ g.name

-- The item for a frame.
abbrev pub rx_item : ℕ → ℕ → Item
rx_item b msgh = record { event_type = network_rx; buf = b; msgh = msgh; release_after_send = true }

module _ (p : Platform) (s : Surroundings) (k : Kernel) (e : PointerQueues) where
  -- The descriptor after the call.
  abbrev pub filed : NetworkBuffer → Buffer → Fields → NetworkBuffer
  filed buf frame f = record buf {
    data_length = frame.data_length;
    bound_port = destination_of p f;
    port = source_of p f;
  }

  -- The state in which the message is built.
  abbrev before : World k e → ℕ → NetworkBuffer → Buffer → Fields → World k e
  before w b buf frame f = record (stripped p s k e w b buf frame) {
    buffers =
        update (update w.buffers b (record buf { data_length = frame.data_length })) b
          (filed buf frame f);
  }

  message_run :
      (g : Granted) (w : World k e) (b : ℕ) (h : Header) (port base tsn : ℕ) (m : Memory)
      → port ≢ 0
      → tsn ≢ 0
      → socket_from_port k e s.lookup w port ≡ done (some (base, tsn))
      → build_message p s k e g w b h port tsn ≡ done m
      → message_for p s k e g w b h port ≡ done (record w { memory = m }, some g.message)
  unfolding message_for
  message_run g w b h port base tsn m np nt found built =
      rw (==-of-≢ port 0 np, found, ==-of-≢ tsn 0 nt, built) refl

  handle_run :
      (g : Granted) (w w' : World k e) (items : ℕ → Option Item) (b : ℕ) (buf : NetworkBuffer)
      (frame : Buffer) (f : Fields) (msgh : ℕ)
      → g.item ≢ 0
      → strip_in_place p s k e w b ≡ done (stripped p s k e w b buf frame, frame)
      → read_header p s frame ≡ done (header_of p f)
      → read_ports p s frame (header_of p f) ≡ done (destination_of p f, source_of p f)
      → message_for p s k e g (before w b buf frame f) b (header_of p f) (destination_of p f)
        ≡ done (w', some msgh)
      → handle_receive p s k e g w items b ≡ done (w', update items g.item (rx_item b msgh), g.item)
  unfolding handle_receive item_malloc
  handle_run g w w' items b buf frame f msgh ni strip header ports message =
      rw (strip, header, ports, ==-same b, message, ==-of-≢ g.item 0 ni) refl

  -- The state after the call: the item, the descriptor, the frame without its tags, the message,
  -- and what is as it was.
  pub record Accepts (g : Granted) (w w' : World k e) (items' : ℕ → Option Item) (b : ℕ)
      (buf : NetworkBuffer) (bytes : List ℕ) (n : ℕ) (f : Fields) : Type 0 where
    pub frame : Buffer
    pub item : items' g.item ≡ some (rx_item b g.message)
    pub untagged : Untagged p s k e frame buf bytes n f
    pub descriptor : w'.buffers b ≡ some (filed buf frame f)
    pub held : w'.memory.bytes buf.ethernet ≡ some frame.bytes
    pub message : Carries p s g w'.memory (filed buf frame f) (header_of p f) (destination_of p f)
    pub same_net : w'.net ≡ w.net
    pub same_sockets : w'.sockets ≡ w.sockets
    pub same_bases : w'.bases ≡ w.bases
    pub same_bound : w'.bound ≡ w.bound
    pub same_effects : w'.effects ≡ w.effects

  -- For a frame with UDP over IPv4 behind as many VLAN tags as ucGetNumberOfTags counts, to a port
  -- other than 0 that the list of bound sockets leads to a TSN socket, on a timebase that calls of
  -- xTimebaseHandleSet led to, where there is memory for the message, the payload vector and the
  -- item: prvHandleReceive ends without a fault and returns an item for a received packet with the
  -- descriptor and the message. The frame is the one that came, without its tags; the descriptor
  -- has its length and its ports; the message has it as its payload, is not marked as an error,
  -- and gives the destination address where there was memory for it. Queues, sockets and other
  -- code are left alone.
  pub handle_receive_lem :
      (hs : List TimebaseHandle) (g : Granted) (w : World k e) (items : ℕ → Option Item) (b : ℕ)
      (buf : NetworkBuffer) (bytes : List ℕ) (n : ℕ) (f : Fields) (base tsn : ℕ)
      (socket : TsnSocket e)
      → s.timebase ≡ set_all initial hs
      → Arrived p s k e w b buf bytes n f
      → destination_of p f ≢ 0
      → Listens k e w (destination_of p f) base tsn socket
      → IsGranted g buf.ethernet
      → (w' : World k e) × (items' : ℕ → Option Item) × (handle_receive p s k e g w items b
          ≡ done (w', items', g.item))
        × Accepts g w w' items' b buf bytes n f
  handle_receive_lem hs g w items b buf bytes n f base tsn socket timed x np l room =
      let (frame, strip, untagged) = strip_in_place_lem p s k e w b buf bytes n f x in
      let port = destination_of p f in
      let w2 = before w b buf frame f in
      let there : w2.buffers b ≡ some (filed buf frame f) =
        read_back (update w.buffers b (record buf { data_length = frame.data_length })) b _ in
      let (m, built, carries, kept) =
        build_message-Carries p s k e hs g w2 b (header_of p f) port tsn (filed buf frame f) socket
          timed room.message room.iov l.not_null room.room l.allocated there refl room.control_apart
          room.name_apart in
      let found = socket_from_port-Listens k e s.lookup w w2 port base tsn socket refl refl l in
      (
        record w2 { memory = m },
        update items g.item (rx_item b g.message),
        handle_run g w (record w2 { memory = m }) items b buf frame f g.message room.item strip
            (read_header_lem p s f frame untagged.fields)
            (read_ports_lem p s f frame untagged.fields)
            (message_run g w2 b (header_of p f) port base tsn m np l.not_null found built),
        record {
          frame = frame;
          item = read_back items g.item _;
          untagged = untagged;
          descriptor = there;
          held = kept ∙ read_back w.memory.bytes buf.ethernet frame.bytes;
          message = carries;
          same_net = refl;
          same_sockets = refl;
          same_bases = refl;
          same_bound = refl;
          same_effects = refl;
        },
      )
