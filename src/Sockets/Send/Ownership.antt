-- ===== src/Sockets/Send/Ownership.antt =====
-- What becomes of the network buffer that FreeRTOS_TSN_sendto (source/FreeRTOS_TSN_Sockets.c)
-- takes, on each of its paths.
use free_rtos_tsn_compatibil.Prelude.{
  ℕ, ◌+◌, ◌%◌, ◌^◌, ◌≤◌, ◌<◌, ◌≡◌, ◌≢◌, refl, ◌⊎◌, inl, inr, Bool, true, false, ◌==◌, not,
  if◌then◌else◌, Bool-cases, Option, none, some, List, length, All, ==-of-≢, ==-same, arith,
}
use free_rtos_tsn_compatibil.Kernel.{Kernel, PointerQueues}
use free_rtos_tsn_compatibil.State.{Config, Run, done, u32}
use free_rtos_tsn_compatibil.Scheduler.Choice.{IsQueue}
use free_rtos_tsn_compatibil.Bytes.Stores.{store_all_lem}
use free_rtos_tsn_compatibil.Frame.{Platform}
use free_rtos_tsn_compatibil.World.{
  NetworkBuffer, BaseSocket, TsnSocket, World, released, note, Outcome, negative, Errno, einval,
  ebadf, eagain,
}
use free_rtos_tsn_compatibil.Sockets.Send.{
  IpConfig, EndPoint, Family, inet4, inet6, other_family, Destination, Answers,
  ethernet_destination, prepare_udpv4, acquire, tx_item, send_prepared, send_ipv4, send_ipv6,
  tsn_sendto,
}
use free_rtos_tsn_compatibil.Sockets.Send.Headers.{prepare-Prepared}
use free_rtos_tsn_compatibil.Sockets.Send.Disposal.{Disposed, dropped, send_prepared_lem}

module _ (k : Kernel) (e : PointerQueues) (c : Config) (p : Platform) (u : IpConfig) where
  -- The descriptor that was taken.
  abbrev taken : Answers → ℕ → BaseSocket → Destination → NetworkBuffer
  taken a size base d = record a.descriptor {
    data_length = size;
    end_point = base.end_point;
    port = d.port;
    bound_port = base.bound_port % 2 ^ 16;
    ip_address = d.ip_address;
  }

  send_ipv4_run :
      (w : World k e) (a : Answers) (socket : TsnSocket e) (base : BaseSocket) (d : Destination)
      (payload : List ℕ) (after : NetworkBuffer × List ℕ × Bool) (w' : World k e) (r : Outcome)
      → a.buffer ≢ 0
      → prepare_udpv4 p u socket.ds_class a.arp (taken a (u32 (length payload + 42)) base d) a.fresh
        ≡ done after
      → send_prepared k e c p u
          (acquire k e c p u w a (u32 (length payload + 42)) base d)
          a
          payload
          after
        ≡ done (w', r)
      → send_ipv4 k e c p u w a socket base d payload ≡ done (w', r)
  unfolding send_ipv4 acquire
  send_ipv4_run w a socket base d payload after w' r ne prepared sent =
      rw (==-of-≢ a.buffer 0 ne, ==-same a.buffer, ==-same a.descriptor.ethernet, prepared) sent

  prepare_cases :
      (class : ℕ) (arp : Option ((ℕ → ℕ) × EndPoint)) (buf : NetworkBuffer) (bytes : List ℕ)
      → 42 ≤ buf.data_length
      → buf.data_length < 2 ^ 32
      → buf.data_length ≤ length bytes
      → u.minimum_packet_bytes ≤ length bytes
      → (buf' : NetworkBuffer) × (bytes' : List ℕ) × (prepared : Bool) × (prepare_udpv4 p u class
            arp buf bytes
          ≡ done (buf', bytes', prepared))
        × (length bytes' ≡ length bytes)
  unfolding prepare_udpv4
  prepare_cases class none buf bytes headed small inside padded =
      let (b1, run, len, each) =
        store_all_lem (ethernet_destination (λ i. 0)) 6 bytes (omega arith) (omega arith) in
      (buf, b1, false, rw (run) refl, len)
  prepare_cases class (some (mac, end_point)) buf bytes headed small inside padded =
      let x = prepare-Prepared p u class mac end_point buf bytes headed small inside padded in
      (x.buffer, x.frame, true, x.run, x.length_frame)

  send_ipv4_lem :
      (w : World k e) (a : Answers) (socket : TsnSocket e) (base : BaseSocket) (d : Destination)
      (payload : List ℕ)
      → All (IsQueue k w.net.queues (tx_item a.buffer)) w.net.queue_list
      → 62 + length payload < 2 ^ 32
      → 42 + length payload ≤ length a.fresh
      → u.minimum_packet_bytes ≤ length a.fresh
      → a.buffer ≢ 0
      → (w' : World k e) × (r : Outcome) × (send_ipv4 k e c p u w a socket base d payload
          ≡ done (w', r))
        × Disposed k e c p u w.net w.effects a.buffer (length payload) w' r
  unfolding acquire
  send_ipv4_lem w a socket base d payload h small room padded ne =
      let (buf, bytes, prepared, run, len) =
        prepare_cases socket.ds_class a.arp (taken a (u32 (length payload + 42)) base d) a.fresh
          (omega arith) (omega arith) (omega arith) padded in
      let (w', r, sent, disposed) =
        send_prepared_lem k e c p u (acquire k e c p u w a (u32 (length payload + 42)) base d) a
          payload buf bytes prepared h (omega arith) in
      (
        w',
        r,
        send_ipv4_run w a socket base d payload (buf, bytes, prepared) w' r ne run sent,
        disposed,
      )

  send_ipv6_lem :
      (w : World k e) (a : Answers) (base : BaseSocket) (d : Destination) (payload : List ℕ)
      → a.buffer ≢ 0
      → (w' : World k e) × (r : Outcome) × (send_ipv6 k e c p u w a base d payload ≡ done (w', r))
        × Disposed k e c p u w.net w.effects a.buffer (length payload) w' r
  unfolding send_ipv6 acquire
  send_ipv6_lem w a base d payload ne = (
    note k e (acquire k e c p u w a (u32 (length payload + 62)) base d) (released a.buffer),
    negative eagain,
    rw (==-of-≢ a.buffer 0 ne) refl,
    dropped eagain refl refl refl,
  )

  -- The call failed before it took a buffer.
  abbrev pub Refused : World k e → World k e → Outcome → Type 0
  Refused w w' r = (n : Errno) × (r ≡ negative n) × (w' ≡ w)

  -- The run ends without a fault, and the call failed before it took a buffer, or disposed of the
  -- buffer.
  abbrev pub Ends : World k e → ℕ → ℕ → Run (World k e × Outcome) → Type 0
  Ends w buffer total run =
      (w' : World k e) × (r : Outcome) × (run ≡ done (w', r))
      × (Refused w w' r ⊎ Disposed k e c p u w.net w.effects buffer total w' r)

  Ends-if :
      (w : World k e) (buffer total : ℕ) (b : Bool) (x y : Run (World k e × Outcome))
      → Ends w buffer total x
      → Ends w buffer total y
      → Ends w buffer total (if b then x else y)
  Ends-if w buffer total true x y hx hy = hx
  Ends-if w buffer total false x y hx hy = hy

  Ends-refused :
      (w : World k e) (buffer total : ℕ) (n : Errno) → Ends w buffer total (done (w, negative n))
  Ends-refused w buffer total n = (w, negative n, refl, inl (n, refl, refl))

  ipv4-Ends :
      (w : World k e) (a : Answers) (socket : TsnSocket e) (base : BaseSocket) (d : Destination)
      (payload : List ℕ)
      → All (IsQueue k w.net.queues (tx_item a.buffer)) w.net.queue_list
      → 62 + length payload < 2 ^ 32
      → 42 + length payload ≤ length a.fresh
      → u.minimum_packet_bytes ≤ length a.fresh
      → Ends w a.buffer (length payload) (send_ipv4 k e c p u w a socket base d payload)
  unfolding send_ipv4
  ipv4-Ends w a socket base d payload h small room padded = elim (Bool-cases (a.buffer == 0)) [
    | inl null ↦ (w, negative eagain, rw (null) refl, inl (eagain, refl, refl))
    | inr got ↦
        let (w', r, run, disposed) =
          send_ipv4_lem w a socket base d payload h small room padded (ground arith) in
        (w', r, run, inr disposed)
  ]

  ipv6-Ends :
      (w : World k e) (a : Answers) (base : BaseSocket) (d : Destination) (payload : List ℕ)
      → Ends w a.buffer (length payload) (send_ipv6 k e c p u w a base d payload)
  unfolding send_ipv6
  ipv6-Ends w a base d payload = elim (Bool-cases (a.buffer == 0)) [
    | inl null ↦ (w, negative eagain, rw (null) refl, inl (eagain, refl, refl))
    | inr got ↦
        let (w', r, run, disposed) = send_ipv6_lem w a base d payload (ground arith) in
        (w', r, run, inr disposed)
  ]

  family-Ends :
      (w : World k e) (a : Answers) (socket : TsnSocket e) (base : BaseSocket) (d : Destination)
      (payload : List ℕ) (family : Family)
      → All (IsQueue k w.net.queues (tx_item a.buffer)) w.net.queue_list
      → 62 + length payload < 2 ^ 32
      → 42 + length payload ≤ length a.fresh
      → u.minimum_packet_bytes ≤ length a.fresh
      → Ends w a.buffer (length payload) (elim family [
        | inet4 ↦ send_ipv4 k e c p u w a socket base d payload
        | inet6 ↦
            if u.use_ipv6 then send_ipv6 k e c p u w a base d payload else done (w, negative einval)
        | other_family ↦ done (w, negative einval)
      ])
  family-Ends w a socket base d payload inet4 h small room padded =
      ipv4-Ends w a socket base d payload h small room padded
  family-Ends w a socket base d payload inet6 h small room padded =
      Ends-if w a.buffer (length payload) u.use_ipv6 _ _ (ipv6-Ends w a base d payload)
        (Ends-refused w a.buffer (length payload) einval)
  family-Ends w a socket base d payload other_family h small room padded =
      Ends-refused w a.buffer (length payload) einval

  -- Sending ends without a fault, and does one of three things, with the result to match: it fails
  -- with nothing changed, before a buffer is taken; it releases the buffer that it took once and
  -- fails, the queues as they were; or it returns the size of the payload, with the buffer in the
  -- queue that the filters choose and not released. The socket and its base socket are allocated,
  -- every registered queue is a queue with a filter, and the frame of a buffer has room for the
  -- packet and for the smallest packet.
  pub tsn_sendto_lem :
      (w : World k e) (a : Answers) (s : ℕ) (payload : List ℕ) (destination : Option Destination)
      (socket : TsnSocket e) (base : BaseSocket)
      → w.sockets s ≡ some socket
      → w.bases socket.base ≡ some base
      → All (IsQueue k w.net.queues (tx_item a.buffer)) w.net.queue_list
      → 62 + length payload < 2 ^ 32
      → 42 + length payload ≤ length a.fresh
      → u.minimum_packet_bytes ≤ length a.fresh
      → Ends w a.buffer (length payload) (tsn_sendto k e c p u w a s payload destination)
  unfolding tsn_sendto
  tsn_sendto_lem w a s payload none socket base there opened h small room padded =
      rw (there, opened) (Ends-refused w a.buffer (length payload) einval)
  tsn_sendto_lem w a s payload (some d) socket base there opened h small room padded =
      rw (there, opened)
        (Ends-if w a.buffer (length payload) (not base.is_bound) _ _
          (Ends-refused w a.buffer (length payload) ebadf)
          (family-Ends w a socket base d payload d.family h small room padded))
