-- ===== src/Examples/SocketCases.antt =====
-- Control messages and sockets at concrete inputs.
use free_rtos_tsn_compatibil.Prelude.{
  ℕ, ◌+◌, ◌/◌, ◌%◌, ◌≡◌, ◌≢◌, ◌⊎◌, refl, inr, true, false, ◌==◌, if◌then◌else◌, none, some, List,
  [], ◌∷◌, Occurs, arith,
}
use free_rtos_tsn_compatibil.State.{done, ◌>>=◌}
use free_rtos_tsn_compatibil.Memory.{Memory, AddressLayout, cleared}
use free_rtos_tsn_compatibil.Ancillary.{
  ControlMessage, control_fill, first_header, total_space, msg_malloc, msg_fill_name,
  msg_fill_payload, msg_free_all,
}
use free_rtos_tsn_compatibil.Ancillary.Entries.{needed, read_messages}
use free_rtos_tsn_compatibil.Ancillary.Control.{control_fill-read_messages}
use free_rtos_tsn_compatibil.Ancillary.Free.{built_and_freed}
use free_rtos_tsn_compatibil.World.{
  NetworkBuffer, BaseSocket, TsnSocket, World, returned, negative, ewouldblock,
}
use free_rtos_tsn_compatibil.Sockets.{socket_from_port, tsn_bind, tsn_closesocket}
use free_rtos_tsn_compatibil.Sockets.Registry.{
  tsn_bind-socket_from_port, tsn_closesocket-socket_from_port,
}
use free_rtos_tsn_compatibil.Sockets.Send.{
  prepare_udpv4, IpConfig, Answers, Destination, inet4, tsn_sendto,
}
use free_rtos_tsn_compatibil.Sockets.Send.Ownership.{Ends, tsn_sendto_lem}
use free_rtos_tsn_compatibil.Sockets.Receive.{move_to_start_of_payload}
use free_rtos_tsn_compatibil.Sockets.Receive.Message.{tsn_recvmsg}
use free_rtos_tsn_compatibil.Sockets.Receive.Payload.{move_to_start-prepare}
use free_rtos_tsn_compatibil.Sockets.Receive.Lapse.{over, still, tsn_recvmsg-Lapses}
use free_rtos_tsn_compatibil.Examples.Bounded.{bounded_kernel}
use free_rtos_tsn_compatibil.Examples.Pointers.{pointers}
use free_rtos_tsn_compatibil.Examples.Network.{pass_all, urgent, normal, net, config}
use free_rtos_tsn_compatibil.Examples.FrameCases.{little_endian}

-- A memory with a message at 5.
abbrev pub memory : Memory
memory = record {
  messages = λ q. if q == 5 then some cleared else none;
  iovecs = λ q. none;
  bytes = λ q. none;
}

-- A timestamp of 2 bytes and an error of 4.
abbrev controls : List ControlMessage
controls =
    record { level = 1; kind = 37; payload = 8 ∷ 9 ∷ [] }
    ∷ record { level = 0; kind = 11; payload = 1 ∷ 2 ∷ 3 ∷ 4 ∷ [] }
    ∷ []

abbrev pub blank : ℕ → List ℕ
blank ℕ.zero = []
blank (ℕ.suc n) = 0 ∷ blank n

control_fill-read_messages_example :
    (m' : Memory) × (bytes : List ℕ) × (control_fill little_endian 40 (blank 32) memory 5 controls
      ≡ done (m', true))
    × (m'.messages 5 ≡ some (record cleared { control = 40; controllen = needed controls }))
    × (m'.bytes 40 ≡ some bytes)
    × (read_messages little_endian 2 (first_header (needed controls)) (needed controls) bytes
        ≡ done controls)
unfolding total_space needed
control_fill-read_messages_example =
    control_fill-read_messages little_endian 40 (blank 32) memory 5 cleared controls (omega arith)
      (omega arith) refl (omega arith) refl
      ((omega arith, omega arith), ((omega arith, omega arith), tt))

-- Two sockets at 3 and 4, the one at 3 bound to the port 0x5000 in network order.
abbrev pub opened : BaseSocket
opened = record {
  is_bound = true;
  bound_port = 0x5000;
  local_port = 0x50;
  send_block_time = 10;
  receive_block_time = 10;
  end_point = 70;
  has_event_group = true;
  is_ipv6 = false;
  waiting = [];
}

abbrev pub first : TsnSocket pointers
first = record {
  base = 8;
  err_queue = record { cap = 16; items = [] };
  ds_class = 46;
  ts_flags = 0;
  bound_port = 0x5000;
  is_listed = true;
}

abbrev pub second : TsnSocket pointers
second = record first { base = 9; bound_port = 0; is_listed = false }

abbrev pub world : World bounded_kernel pointers
world = record {
  net = net;
  memory = memory;
  buffers = λ q. none;
  sockets = λ q. if q == 3 then some first else if q == 4 then some second else none;
  bases = λ q. if q == 8 then some opened else if q == 9 then some opened else none;
  bound = some (3 ∷ []);
  effects = [];
}

tsn_bind-socket_from_port_example :
    (w' : World bounded_kernel pointers) × (tsn_bind bounded_kernel pointers little_endian world
        (returned 0)
        (record opened { local_port = 0x51 })
        4
      ≡ done (w', returned 0))
    × (w'.bound ≡ some (3 ∷ 4 ∷ []))
    × (socket_from_port bounded_kernel pointers (λ key. 0) w' 0x5100 ≡ done (some (9, 4)))
tsn_bind-socket_from_port_example =
    tsn_bind-socket_from_port bounded_kernel pointers little_endian (λ key. 0) world
      (record opened { local_port = 0x51 }) 4 second (3 ∷ []) refl refl ((first, refl), tt)
      ((λ t e same. ground arith), tt)

tsn_closesocket-socket_from_port_example :
    (w' : World bounded_kernel pointers) × (tsn_closesocket bounded_kernel pointers world
        (returned 1)
        3
      ≡ done (w', returned 1))
    × (w'.sockets 3 ≡ some (record first { is_listed = false }))
    × ((key : ℕ)
        → (socket_from_port bounded_kernel pointers (λ key'. 0) w' key ≡ done (some (0, 0)))
          ⊎ ((base : ℕ) × (t : ℕ) × (socket_from_port bounded_kernel pointers (λ key'. 0) w' key
                ≡ done (some (base, t)))
              × (t ≢ 3)
              × Occurs t (3 ∷ [])))
tsn_closesocket-socket_from_port_example =
    tsn_closesocket-socket_from_port bounded_kernel pointers (λ key. 0) world (returned 1) 3 first
      (3 ∷ []) (omega arith) refl refl refl ((first, refl), tt) ((λ o. o), tt)

abbrev ip : IpConfig
ip = record { time_to_live = 128; minimum_packet_bytes = 60; network_mtu = 1500; use_ipv6 = true }

abbrev pub answers : Answers
answers = record {
  buffer = 30;
  descriptor = record {
    ethernet = 31;
    data_length = 60;
    ip_address = 0;
    port = 0;
    bound_port = 0;
    interface = 0;
    end_point = 0;
  };
  fresh = blank 60;
  arp = some ((λ i. i), record { address = 71; mac = λ i. i + 6; ip_address = 0x0a000001 });
  timed_out = false;
  remaining_time = 5;
}

abbrev destination : Destination
destination = record { family = inet4; ip_address = 0x0a000002; port = 0x1234 }

tsn_sendto_lem_example : Ends bounded_kernel pointers config little_endian ip world 30 2 (
    tsn_sendto bounded_kernel pointers config little_endian ip world answers 3
      (1 ∷ 2 ∷ [])
      (some destination))
tsn_sendto_lem_example =
    tsn_sendto_lem bounded_kernel pointers config little_endian ip world answers 3 (1 ∷ 2 ∷ [])
      (some destination) first opened refl refl
      ((urgent, refl, (pass_all, refl)), ((normal, refl, (pass_all, refl)), tt)) (omega arith)
      (omega arith) (omega arith)

-- Addresses of 8 bytes.
abbrev pub layout : AddressLayout
layout = record {
  size = 8;
  encode = λ a.
      a.sin_len
      ∷ a.sin_family
      ∷ a.sin_port % 256
      ∷ a.sin_port / 256
      ∷ a.sin_address % 256
      ∷ a.sin_address / 256 % 256
      ∷ a.sin_address / 65536 % 256
      ∷ a.sin_address / 16777216
      ∷ [];
  length_encode = λ a. refl;
}

built_and_freed_example :
    (m' : Memory) × ((msg_malloc 6 memory >>= λ m1.
    msg_fill_name layout 7 m1 6 (some 0x0a000001) 80 2 >>= λ (m2, named).
    msg_fill_payload 8 m2 6 30 60 >>= λ (m3, filled). msg_free_all m3 6)
      ≡ done m')
    × ((a : ℕ)
        → (m'.messages a ≡ memory.messages a)
          × (m'.bytes a ≡ memory.bytes a)
          × (m'.iovecs a ≡ memory.iovecs a))
built_and_freed_example =
    built_and_freed layout memory 6 7 8 30 60 0x0a000001 80 2 (omega arith) (omega arith)
      (omega arith) refl refl refl

move_to_start-prepare_example :
    (buf' : NetworkBuffer) × (frame : List ℕ) × (prepare_udpv4 little_endian ip 46 answers.arp
        (record (answers.descriptor) { data_length = 44 })
        (blank 60)
      ≡ done (buf', frame, true))
    × (move_to_start_of_payload little_endian frame 0 60 ≡ done (42, 10))
move_to_start-prepare_example =
    move_to_start-prepare little_endian ip 46 (λ i. i)
      (record { address = 71; mac = λ i. i + 6; ip_address = 0x0a000001 })
      (record (answers.descriptor) { data_length = 44 }) (blank 60) 60 (omega arith) (omega arith)
      (omega arith) (omega arith)

tsn_recvmsg-Lapses_example :
    tsn_recvmsg bounded_kernel pointers little_endian world 3 5
      (record { errqueue = false; dont_wait = false; peek = false })
      ((world, false) ∷ (world, true) ∷ [])
    ≡ done (world, negative ewouldblock)
tsn_recvmsg-Lapses_example =
    tsn_recvmsg-Lapses bounded_kernel pointers little_endian world world 3 5
      (record { errqueue = false; dont_wait = false; peek = false })
      ((world, false) ∷ (world, true) ∷ []) first opened (omega arith) (omega arith) (omega arith)
      refl refl refl refl refl (inr (refl, still (opened, refl, refl) (over (opened, refl, refl))))
