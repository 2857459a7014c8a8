-- ===== src/Controller/Delivery.antt =====
-- What becomes of the network buffer of a frame that prvDeliverFrame
-- (source/FreeRTOS_TSN_Controller.c) gets for a socket of FreeRTOS-Plus-TCP or for the IP task.
use free_rtos_tsn_compatibil.Prelude.{
  ℕ, ◌≤◌, ◌<◌, ◌≡◌, ◌≢◌, refl, ◌⊎◌, inl, inr, Bool, false, ltb, ◌==◌, ◌||◌, not, Bool-cases,
  ==-of-≢, ==-same, Option, some, List, [], ◌∷◌, get_elem?, get_elem?_of_lt, length, arith,
}
use free_rtos_tsn_compatibil.Kernel.{Kernel, PointerQueues, Item}
use free_rtos_tsn_compatibil.State.{Config, done, update}
use free_rtos_tsn_compatibil.Bytes.{copy_out}
use free_rtos_tsn_compatibil.Frame.{Platform}
use free_rtos_tsn_compatibil.World.{NetworkBuffer, World}
use free_rtos_tsn_compatibil.Sockets.{socket_from_port}
use free_rtos_tsn_compatibil.Sockets.Registry.{AreSockets, IsFreePort}
use free_rtos_tsn_compatibil.Controller.{Stack, deliver_to_stack, dispatch, deliver_frame}
use free_rtos_tsn_compatibil.Controller.Fate.{
  Fate, rejected, pass-Fate, Ends, Ends-if, find_free, process_run,
}

module _ (k : Kernel) (e : PointerQueues) (s : Stack) where
  stack-Ends :
      (w : World k e) (item : Item) (buf : NetworkBuffer) (bytes : List ℕ) (using : Bool)
      (protocol : ℕ)
      → item.msgh ≡ 0
      → w.buffers item.buf ≡ some buf
      → w.memory.bytes buf.ethernet ≡ some bytes
      → 38 ≤ length bytes
      → Ends k e s w.effects item.buf (deliver_to_stack k e s w item using protocol)
  unfolding deliver_to_stack
  stack-Ends w item buf bytes using protocol no_message there held room = rw (no_message) (
      Ends-if k e s w.effects item.buf (using || not (protocol == 17)) _ _
        (_, refl, pass-Fate k e s w item.buf)
        (process_run k e s w item.buf buf bytes there held room))

  lookup_run :
      (w : World k e) (key : ℕ) (listed : List ℕ)
      → w.bound ≡ some listed
      → AreSockets k e w listed
      → IsFreePort k e w key listed
      → socket_from_port k e s.lookup w key ≡ done (some (s.lookup key, 0))
  unfolding socket_from_port
  lookup_run w key listed bound a f = rw (bound, find_free k e s w key listed a f) refl

  dispatch-Ends :
      (w : World k e) (item : Item) (buf : NetworkBuffer) (bytes : List ℕ) (using : Bool)
      (port protocol : ℕ) (listed : List ℕ)
      → item.msgh ≡ 0
      → w.buffers item.buf ≡ some buf
      → w.memory.bytes buf.ethernet ≡ some bytes
      → 38 ≤ length bytes
      → w.bound ≡ some listed
      → AreSockets k e w listed
      → IsFreePort k e w port listed
      → Ends k e s w.effects item.buf (dispatch k e s w item using port protocol)
  unfolding dispatch
  dispatch-Ends w item buf bytes using port protocol listed no_message there held room bound a f =
      rw (lookup_run w port listed bound a f) (
        Ends-if k e s w.effects item.buf (not (s.lookup port == 0)) _ _
          (stack-Ends w item buf bytes using protocol no_message there held room)
          (_, refl, pass-Fate k e s w item.buf))

  module _ (c : Config) (p : Platform) where
    -- The tests of the descriptor, and the rest.
    headed_run :
        (w : World k e) (item : Item) (buf : NetworkBuffer) (bytes : List ℕ) (using : Bool)
        (low high protocol b0 b1 b2 b3 : ℕ)
        → item.buf ≢ 0
        → w.buffers item.buf ≡ some buf
        → buf.interface ≢ 0
        → buf.end_point ≢ 0
        → ltb buf.data_length 14 ≡ false
        → w.memory.bytes buf.ethernet ≡ some bytes
        → get_elem? bytes 12 ≡ some low
        → get_elem? bytes 13 ≡ some high
        → get_elem? bytes 23 ≡ some protocol
        → get_elem? bytes 26 ≡ some b0
        → get_elem? bytes 27 ≡ some b1
        → get_elem? bytes 28 ≡ some b2
        → get_elem? bytes 29 ≡ some b3
        → Ends k e s w.effects item.buf (
            dispatch k e s
              (record w {
                buffers =
                    update w.buffers item.buf
                      (record buf { ip_address = p.load32 (b0 ∷ b1 ∷ b2 ∷ b3 ∷ []) });
              })
              item
              using
              buf.bound_port
              protocol)
        → Ends k e s w.effects item.buf (dispatch k e s w item using buf.bound_port 0)
        → Ends k e s w.effects item.buf (deliver_frame k e p s w item using)
    unfolding deliver_frame copy_out
    headed_run w item buf bytes using low high protocol b0 b1 b2 b3 nb there ni ne long held c d g
          a0 a1 a2 a3 ipv4 other =
        rw
          (
            ==-of-≢ item.buf 0 nb,
            there,
            ==-of-≢ buf.interface 0 ni,
            ==-of-≢ buf.end_point 0 ne,
            long,
            held,
            c,
            d,
            a0,
            a1,
            a2,
            a3,
            g,
          )
          (Ends-if k e s w.effects item.buf (p.load16 low high == p.ipv4_frame_type) _ _
            (Ends-if k e s w.effects item.buf (ltb buf.data_length 34) _ _ (_, refl, rejected refl)
              ipv4)
            other)

    read_back :
        (heap : ℕ → Option NetworkBuffer) (b : ℕ) (v : NetworkBuffer) → update heap b v b ≡ some v
    read_back heap b v = rw (==-same b) refl

    headed-Ends :
        (w : World k e) (item : Item) (buf : NetworkBuffer) (bytes : List ℕ) (using : Bool)
        (listed : List ℕ)
        → item.buf ≢ 0
        → item.msgh ≡ 0
        → w.buffers item.buf ≡ some buf
        → buf.interface ≢ 0
        → buf.end_point ≢ 0
        → 14 ≤ buf.data_length
        → w.memory.bytes buf.ethernet ≡ some bytes
        → 38 ≤ length bytes
        → w.bound ≡ some listed
        → AreSockets k e w listed
        → IsFreePort k e w buf.bound_port listed
        → Ends k e s w.effects item.buf (deliver_frame k e p s w item using)
    headed-Ends w item buf bytes using listed nb no_message there ni ne headed held room bound a f =
        let (low, at12) = get_elem?_of_lt bytes 12 (omega arith) in
        let (high, at13) = get_elem?_of_lt bytes 13 (omega arith) in
        let (protocol, at23) = get_elem?_of_lt bytes 23 (omega arith) in
        let (b0, at26) = get_elem?_of_lt bytes 26 (omega arith) in
        let (b1, at27) = get_elem?_of_lt bytes 27 (omega arith) in
        let (b2, at28) = get_elem?_of_lt bytes 28 (omega arith) in
        let (b3, at29) = get_elem?_of_lt bytes 29 (omega arith) in
        let buf' = record buf { ip_address = p.load32 (b0 ∷ b1 ∷ b2 ∷ b3 ∷ []) } in
        headed_run w item buf bytes using low high protocol b0 b1 b2 b3 nb there ni ne
          (ground arith) held at12 at13 at23 at26 at27 at28 at29
          (dispatch-Ends (record w { buffers = update w.buffers item.buf buf' }) item buf' bytes
            using buf.bound_port protocol listed no_message (read_back w.buffers item.buf buf') held
            room bound a f)
          (dispatch-Ends w item buf bytes using buf.bound_port 0 listed no_message there held room
            bound a f)

    -- The buffer is left as it is.
    abbrev pub Forgotten : World k e → NetworkBuffer → World k e → Type 0
    Forgotten w buf w' =
        (w' ≡ w) × ((buf.interface ≡ 0) ⊎ ((buf.end_point ≡ 0) ⊎ (buf.data_length < 14)))

    -- The delivery of a frame without a message whose port no TSN socket has, with a buffer that
    -- has room for the headers, ends without a fault. If the buffer has an interface and an end
    -- point and its frame an Ethernet header, then FreeRTOS-Plus-TCP takes the buffer over, or it
    -- is released once, after a refusal or at once. If not, nothing at all is done, and the buffer
    -- is not released.
    pub deliver_frame_lem :
        (w : World k e) (item : Item) (buf : NetworkBuffer) (bytes : List ℕ) (using : Bool)
        (listed : List ℕ)
        → item.buf ≢ 0
        → item.msgh ≡ 0
        → w.buffers item.buf ≡ some buf
        → w.memory.bytes buf.ethernet ≡ some bytes
        → 38 ≤ length bytes
        → w.bound ≡ some listed
        → AreSockets k e w listed
        → IsFreePort k e w buf.bound_port listed
        → (w' : World k e) × (deliver_frame k e p s w item using ≡ done w')
          × (((buf.interface ≢ 0)
                × (buf.end_point ≢ 0)
                × (14 ≤ buf.data_length)
                × Fate k e s w.effects item.buf w')
              ⊎ Forgotten w buf w')
    unfolding deliver_frame
    deliver_frame_lem w item buf bytes using listed nb no_message there held room bound a f =
        elim (Bool-cases (buf.interface == 0)) [
          | inl z ↦ (w, rw (==-of-≢ item.buf 0 nb, there, z) refl, inr (refl, inl (ground arith)))
          | inr ni ↦ elim (Bool-cases (buf.end_point == 0)) [
            | inl z ↦ (
              w,
              rw (==-of-≢ item.buf 0 nb, there, ni, z) refl,
              inr (refl, inr (inl (ground arith))),
            )
            | inr ne ↦ elim (Bool-cases (ltb buf.data_length 14)) [
              | inl short ↦ (
                w,
                rw (==-of-≢ item.buf 0 nb, there, ni, ne, short) refl,
                inr (refl, inr (inr (ground arith))),
              )
              | inr long ↦
                  let ni' : buf.interface ≢ 0 = ground arith in
                  let ne' : buf.end_point ≢ 0 = ground arith in
                  let headed : 14 ≤ buf.data_length = ground arith in
                  let (w', run, fate) =
                    headed-Ends w item buf bytes using listed nb no_message there ni' ne' headed
                      held room bound a f in
                  (w', run, inl (ni', ne', headed, fate))
            ]
          ]
        ]
