-- ===== src/Examples/RecvCases.antt =====
-- A packet that a user takes from a TSN socket, at concrete inputs.
use free_rtos_tsn_compatibil.Prelude.{
  ℕ, ◌≡◌, refl, false, ◌==◌, if◌then◌else◌, none, some, List, [], ◌∷◌, arith, inl, inr, ◌≢◌,
}
use free_rtos_tsn_compatibil.State.{done}
use free_rtos_tsn_compatibil.Memory.{Memory, Msghdr, IoVec, cleared}
use free_rtos_tsn_compatibil.World.{NetworkBuffer, World, released, returned}
use free_rtos_tsn_compatibil.Sockets.Receive.Message.{tsn_recvmsg}
use free_rtos_tsn_compatibil.Sockets.Receive.Copied.{IsUser, Received}
use free_rtos_tsn_compatibil.Sockets.Receive.Datagram.{IsDatagram}
use free_rtos_tsn_compatibil.Sockets.Receive.Taken.{tsn_recvmsg-Received}
use free_rtos_tsn_compatibil.Examples.Bounded.{bounded_kernel}
use free_rtos_tsn_compatibil.Examples.Pointers.{pointers}
use free_rtos_tsn_compatibil.Examples.Network.{net}
use free_rtos_tsn_compatibil.Examples.FrameCases.{little_endian}
use free_rtos_tsn_compatibil.Examples.SocketCases.{blank, opened}
use free_rtos_tsn_compatibil.Examples.ReceptionCases.{descriptor, arrival, stamped}

-- The message of a packet at 6, and one of the user at 70 with room for three bytes in the array
-- at 72.
abbrev packet_message : Msghdr
packet_message = record cleared { iov = 8; iovlen = 1; control = 40; controllen = 36 }

abbrev user_message : Msghdr
user_message = record cleared { iov = 71; iovlen = 1 }

abbrev packet_vector : IoVec
packet_vector = record { base = 31; offset = 0; len = 44 }

abbrev user_vector : IoVec
user_vector = record { base = 72; offset = 1; len = 20 }

-- UDP over IPv4 with 10 bytes of data, in an array of 60 bytes.
abbrev plain_frame : List ℕ
plain_frame =
    2 ∷ 0 ∷ 0 ∷ 0 ∷ 0 ∷ 1 ∷ 2 ∷ 0 ∷ 0 ∷ 0 ∷ 0 ∷ 2 ∷ 8 ∷ 0 ∷ 0x45 ∷ 0 ∷ 0 ∷ 30 ∷ 0 ∷ 0 ∷ 0 ∷ 0 ∷ 128
    ∷ 17 ∷ 0 ∷ 0 ∷ 10 ∷ 0 ∷ 0 ∷ 1 ∷ 10 ∷ 0 ∷ 0 ∷ 2 ∷ 0 ∷ 0x51 ∷ 0 ∷ 0x50 ∷ 0 ∷ 18 ∷ 0 ∷ 0 ∷ 7 ∷ 9
    ∷ 0 ∷ 0 ∷ 0 ∷ 0 ∷ 0 ∷ 0 ∷ 0 ∷ 0 ∷ 0 ∷ 0 ∷ 0 ∷ 0 ∷ 0 ∷ 0 ∷ 0 ∷ 0 ∷ []

abbrev waiting_memory : Memory
waiting_memory = record {
  messages =
      λ a. if a == 6 then some packet_message else if a == 70 then some user_message else none;
  iovecs = λ a.
      if a == 8
      then some (packet_vector ∷ [])
      else if a == 71
      then some (user_vector ∷ [])
      else none;
  bytes = λ a.
      if a == 31
      then some plain_frame
      else if a == 40
      then some (blank 36)
      else if a == 72
      then some (blank 24)
      else none;
}

abbrev delivered_buffer : NetworkBuffer
delivered_buffer = record descriptor { data_length = 44; ethernet = 6 }

abbrev waiting_world : World bounded_kernel pointers
waiting_world = record arrival {
  memory = waiting_memory;
  buffers = λ b. if b == 30 then some delivered_buffer else none;
  bases = λ q. if q == 8 then some (record opened { waiting = 30 ∷ [] }) else none;
}

plain_frame-IsDatagram :
    IsDatagram little_endian waiting_memory 6 packet_message packet_vector plain_frame 10
plain_frame-IsDatagram = record {
  not_null = omega arith;
  header = refl;
  iov = omega arith;
  one = refl;
  vector = refl;
  front = refl;
  held = refl;
  type0 = 8;
  type1 = 0;
  at_type0 = refl;
  at_type1 = refl;
  is_ipv4 = refl;
  at_protocol = refl;
  length0 = 0;
  length1 = 18;
  at_length0 = refl;
  at_length1 = refl;
  is_length = refl;
  inside = omega arith;
  name = inl refl;
  control = inr (blank 36, refl);
  apart = inl (omega arith);
}

user_message-IsUser : IsUser little_endian waiting_memory 70 user_message user_vector (blank 24)
user_message-IsUser = record {
  header = refl;
  name = refl;
  control = refl;
  iov = omega arith;
  one = refl;
  vector = refl;
  held = refl;
  room = omega arith;
  small = omega arith;
}

tsn_recvmsg-Received_example :
    (w' : World bounded_kernel pointers) × (tsn_recvmsg bounded_kernel pointers little_endian
        waiting_world 3 70
        (record { errqueue = false; dont_wait = false; peek = false })
        []
      ≡ done (w', returned 18))
    × Received little_endian w'.memory 6 packet_message 70 user_message user_vector
        (blank 24)
        plain_frame
        42
        18
    × (w'.bases 8 ≡ some opened)
    × (w'.buffers 30 ≡ some (record delivered_buffer { ethernet = 31 }))
    × (w'.effects ≡ released 30 ∷ [])
    × ((a : ℕ) → a ≢ 8 → w'.bases a ≡ waiting_world.bases a)
    × (w'.net ≡ net)
    × (w'.sockets ≡ waiting_world.sockets)
tsn_recvmsg-Received_example =
    tsn_recvmsg-Received bounded_kernel pointers little_endian waiting_world 3 70
      (record { errqueue = false; dont_wait = false; peek = false }) [] stamped
      (record opened { waiting = 30 ∷ [] }) 30 [] delivered_buffer user_message packet_message
      user_vector packet_vector (blank 24) plain_frame 10 (omega arith) (omega arith) (omega arith)
      (omega arith) refl refl refl refl refl refl plain_frame-IsDatagram user_message-IsUser
      (record {
        messages = omega arith;
        iovecs = omega arith;
        name = omega arith;
        control = omega arith;
      })
