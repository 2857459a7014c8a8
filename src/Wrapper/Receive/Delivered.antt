-- ===== src/Wrapper/Receive/Delivered.antt =====
-- The way of a frame from the network driver to a TSN socket: prvHandleReceive
-- (source/portable/NetworkInterface/Common/NetworkWrapper.c) makes an item of it, and
-- prvDeliverFrame (source/FreeRTOS_TSN_Controller.c) gets it once the queues have passed it on.
use mathlib.Core.Path.{subst}
use free_rtos_tsn_compatibil.Prelude.{
  ℕ, ◌+◌, ◌<◌, ◌*◌, ◌≡◌, ◌≢◌, refl, sym, ap, ◌∙◌, ltb, Bool, false, Option, some, List, [], ◌∷◌,
  ◌++◌, get_elem?, get_elem?_of_lt, lt_of_get_elem?, arith,
}
use free_rtos_tsn_compatibil.Kernel.{Kernel, PointerQueues, Item}
use free_rtos_tsn_compatibil.State.{State, done, update}
use free_rtos_tsn_compatibil.Frame.{Platform, Buffer}
use free_rtos_tsn_compatibil.Timebase.Handle.{TimebaseHandle, initial, set_all}
use free_rtos_tsn_compatibil.World.{NetworkBuffer, BaseSocket, TsnSocket, World}
use free_rtos_tsn_compatibil.Controller.{Stack, deliver_frame}
use free_rtos_tsn_compatibil.Wrapper.Receive.{Granted, Surroundings, handle_receive}
use free_rtos_tsn_compatibil.Wrapper.Receive.Frames.{
  Fields, Datagram, header_of, destination_of, Arrived, Untagged,
}
use free_rtos_tsn_compatibil.State.Heap.{read_back}
use free_rtos_tsn_compatibil.Wrapper.Receive.Runs.{
  received, normal, at_sender, receive_run, dispatch_run, deliver_run,
}
use free_rtos_tsn_compatibil.Wrapper.Receive.Built.{Carries}
use free_rtos_tsn_compatibil.Wrapper.Receive.Accepted.{
  Listens, Listens-same, socket_from_port-Listens, IsGranted, rx_item, filed, handle_receive_lem,
}

module _ (k : Kernel) (e : PointerQueues) (st : Stack) where
  module _ (p : Platform) where
    -- The socket has the packet: the descriptor is the last of those that wait, with the message
    -- in place of the frame and the address of the sender, and nothing else has changed.
    pub record Delivered (g : Granted) (w w' : World k e) (b base : ℕ) (bs : BaseSocket)
        (buf : NetworkBuffer) (sender : List ℕ) : Type 0 where
      pub waits : w'.bases base ≡ some (record bs { waiting = bs.waiting ++ (b ∷ []) })
      pub descriptor :
          w'.buffers b ≡ some (record buf { ip_address = p.load32 sender; ethernet = g.message })
      pub same_memory : w'.memory ≡ w.memory
      pub same_net : w'.net ≡ w.net
      pub same_sockets : w'.sockets ≡ w.sockets
      pub told : w'.effects ≡ received k e st bs base w.effects

    deliver-Delivered :
        (s : Surroundings) (g : Granted) (w : World k e) (b base tsn : ℕ) (buf : NetworkBuffer)
        (bs : BaseSocket) (socket : TsnSocket e) (bytes : List ℕ) (f : Fields) (using : Bool)
        (port : ℕ)
        → b ≢ 0
        → g.message ≢ 0
        → w.buffers b ≡ some buf
        → buf.interface ≢ 0
        → buf.end_point ≢ 0
        → ltb buf.data_length 14 ≡ false
        → ltb buf.data_length 34 ≡ false
        → w.memory.bytes buf.ethernet ≡ some bytes
        → Datagram p f bytes 0
        → Listens k e w buf.bound_port base tsn socket
        → w.bases base ≡ some bs
        → Carries p s g w.memory buf (header_of p f) port
        → (w' : World k e) × (sender : List ℕ) × (deliver_frame k e p st w
              (rx_item b g.message)
              using
            ≡ done w')
          × Delivered g w w' b base bs buf sender
          × ((j : ℕ) → j < 4 → get_elem? sender j ≡ get_elem? bytes (26 + j))
    deliver-Delivered s g w b base tsn buf bs socket bytes f using port nb nm there ni ne headed
          long held d l below carries =
        let inside = lt_of_get_elem? bytes 37 d.at_destination1 in
        let (b0, at26) = get_elem?_of_lt bytes 26 (omega arith) in
        let (b1, at27) = get_elem?_of_lt bytes 27 (omega arith) in
        let (b2, at28) = get_elem?_of_lt bytes 28 (omega arith) in
        let (b3, at29) = get_elem?_of_lt bytes 29 (omega arith) in
        let sender = b0 ∷ b1 ∷ b2 ∷ b3 ∷ [] in
        let buf' = record buf { ip_address = p.load32 sender } in
        let w1 = record w { buffers = update w.buffers b buf' } in
        let there1 : w1.buffers b ≡ some buf' = read_back w.buffers b buf' in
        let found =
          socket_from_port-Listens k e st.lookup w w1 buf.bound_port base tsn socket refl refl l in
        let run1 =
          deliver_run k e st p w b g.message buf bytes using f.type0 f.type1 17 b0 b1 b2 b3 nb there
            ni ne headed long held d.at_type0 d.at_type1 d.is_ipv4 d.at_protocol at26 at27 at28
            at29 in
        let run2 =
          dispatch_run k e st w1 b g.message buf.bound_port 17 base tsn using found l.not_null in
        let run3 =
          receive_run k e st w1 b g.message tsn base carries.hdr _ buf' bs nm carries.header
            (normal k e st carries.hdr carries.flags)
            (ap w.memory.iovecs carries.iov ∙ carries.payload) there1 refl refl below in
        (
          _,
          sender,
          run1 ∙ run2 ∙ run3,
          record {
            waits = read_back w.bases base _;
            descriptor = read_back w1.buffers b _;
            same_memory = refl;
            same_net = refl;
            same_sockets = refl;
            told = refl;
          },
          at_sender k e st b0 b1 b2 b3 bytes at26 at27 at28 at29,
        )

    -- A frame with UDP over IPv4 that has no VLAN tags, or whose datagram stands behind just as
    -- many as ucGetNumberOfTags counts, which is 1 for a TPID 0x88a8 and 2 for a TPID 0x8100, so
    -- that a frame with a single tag 0x8100, or with a tag 0x88a8 before another, is excluded. For
    -- a port other than 0 to which a TSN socket with a base socket is bound, with the timebase and
    -- the memory as in handle_receive_lem, and a descriptor that is not NULL and has an interface
    -- and an end point: prvHandleReceive returns an item, and prvDeliverFrame on this item,
    -- whatever the queues have become and whether or not the IP task is to be used, ends without a
    -- fault. Then the descriptor waits behind those that already waited at the socket, the message
    -- is in place of its frame and has the frame without the tags as its payload, the four bytes
    -- of the sender's address are in the descriptor, and other code has been told of one packet,
    -- if the socket has an event group, and of nothing else.
    pub handle_receive-Delivered :
        (s : Surroundings) (hs : List TimebaseHandle) (g : Granted) (w : World k e)
        (items : ℕ → Option Item) (b : ℕ) (buf : NetworkBuffer) (bytes : List ℕ) (n : ℕ)
        (f : Fields) (base tsn : ℕ) (socket : TsnSocket e) (bs : BaseSocket) (net : State k)
        (using : Bool)
        → s.timebase ≡ set_all initial hs
        → Arrived p s k e w b buf bytes n f
        → destination_of p f ≢ 0
        → Listens k e w (destination_of p f) base tsn socket
        → IsGranted g buf.ethernet
        → b ≢ 0
        → buf.interface ≢ 0
        → buf.end_point ≢ 0
        → w.bases base ≡ some bs
        → (w' : World k e) × (items' : ℕ → Option Item) × (w'' : World k e) × (frame : Buffer)
          × (sender : List ℕ) × (handle_receive p s k e g w items b ≡ done (w', items', g.item))
          × (items' g.item ≡ some (rx_item b g.message))
          × (deliver_frame k e p st (record w' { net = net }) (rx_item b g.message) using
              ≡ done w'')
          × Untagged p s k e frame buf bytes n f
          × Delivered g
              (record w { memory = w'.memory; net = net })
              w''
              b
              base
              bs
              (filed p s k e buf frame f)
              sender
          × Carries p s g w''.memory
              (filed p s k e buf frame f)
              (header_of p f)
              (destination_of p f)
          × (w''.memory.bytes buf.ethernet ≡ some frame.bytes)
          × ((j : ℕ) → j < 4 → get_elem? sender j ≡ get_elem? bytes (26 + j + 4 * n))
    handle_receive-Delivered s hs g w items b buf bytes n f base tsn socket bs net using timed x np
          l room nb ni ne below =
        let (w', items', run, a) =
          handle_receive_lem p s k e hs g w items b buf bytes n f base tsn socket timed x np l
            room in
        let u = a.untagged in
        let shorter = u.shorter in
        let long = x.long in
        let (w'', sender, ran, delivered, at) =
          deliver-Delivered s g (record w' { net = net }) b base tsn (filed p s k e buf a.frame f)
            bs socket a.frame.bytes f using (destination_of p f) nb room.message a.descriptor ni ne
            (ground arith) (ground arith) a.held u.fields
            (Listens-same k e w (record w' { net = net }) (destination_of p f) base tsn socket
              a.same_sockets a.same_bound l)
            (ap (λ h. h base) a.same_bases ∙ below) a.message in
        (
          w',
          items',
          w'',
          a.frame,
          sender,
          run,
          a.item,
          ran,
          u,
          record {
            waits = delivered.waits;
            descriptor = delivered.descriptor;
            same_memory = delivered.same_memory;
            same_net = delivered.same_net;
            same_sockets = delivered.same_sockets ∙ a.same_sockets;
            told = delivered.told ∙ ap (received k e st bs base) a.same_effects;
          },
          subst
              (λ m.
                Carries p s g m (filed p s k e buf a.frame f) (header_of p f) (destination_of p f))
              (sym delivered.same_memory) a.message,
          ap (λ m. m.bytes buf.ethernet) delivered.same_memory ∙ a.held,
          λ j h. at j h ∙ u.each (26 + j) (omega arith) ∙ ap (get_elem? bytes) (ground arith),
        )
