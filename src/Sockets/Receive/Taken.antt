-- ===== src/Sockets/Receive/Taken.antt =====
-- FreeRTOS_TSN_recvmsg (source/FreeRTOS_TSN_Sockets.c) on a socket with a packet.
use free_rtos_tsn_compatibil.Prelude.{
  ℕ, ◌+◌, min, ◌≡◌, ◌≢◌, refl, inl, inr, ==-of-≢, ==-same, Bool, true, false, Bool-cases,
  if◌then◌else◌, Option, some, List, [], ◌∷◌, ◌++◌, arith,
}
use free_rtos_tsn_compatibil.Kernel.{Kernel, PointerQueues}
use free_rtos_tsn_compatibil.State.{done, update}
use free_rtos_tsn_compatibil.Frame.{Platform}
use free_rtos_tsn_compatibil.Memory.{Memory, Msghdr, IoVec}
use free_rtos_tsn_compatibil.World.{
  NetworkBuffer, BaseSocket, TsnSocket, World, released, note, returned, invalid_socket,
}
use free_rtos_tsn_compatibil.Sockets.Receive.{RecvFlags, copy_message}
use free_rtos_tsn_compatibil.Sockets.Receive.Message.{
  await_packet, take_packet, hand_over, tsn_recvmsg,
}
use free_rtos_tsn_compatibil.Sockets.Receive.Datagram.{IsDatagram, datagram-IsPacket}
use free_rtos_tsn_compatibil.Sockets.Receive.Copied.{
  IsPacket, IsUser, Apart, Received, copy_message-Received,
}

module _ (k : Kernel) (e : PointerQueues) where
  -- The socket after a packet was taken from it, or only looked at.
  abbrev pub left : RecvFlags → BaseSocket → List ℕ → BaseSocket
  left flags b rest = record b { waiting = if flags.peek then b.waiting else rest }

  await_run :
      (base : ℕ) (flags : RecvFlags) (waits : List (World k e × Bool)) (w : World k e)
      (b : BaseSocket) (head : ℕ) (rest : List ℕ)
      → w.bases base ≡ some b
      → b.waiting ≡ head ∷ rest
      → await_packet k e base flags waits w ≡ done w
  unfolding await_packet
  await_run base flags waits w b head rest there some_there = rw (there, some_there) refl

  take_run :
      (base : ℕ) (flags : RecvFlags) (w : World k e) (b : BaseSocket) (head : ℕ) (rest : List ℕ)
      (buf : NetworkBuffer) (h : Msghdr) (v : IoVec)
      → w.bases base ≡ some b
      → b.waiting ≡ head ∷ rest
      → w.buffers head ≡ some buf
      → w.memory.messages buf.ethernet ≡ some h
      → w.memory.iovecs h.iov ≡ some (v ∷ [])
      → (bases : ℕ → Option BaseSocket) × (take_packet k e base flags w
          ≡ done (
              some (
                record w {
                  bases = bases;
                  buffers = update w.buffers head (record buf { ethernet = v.base });
                },
                head,
                buf.ethernet,
              )))
        × (bases base ≡ some (left flags b rest))
        × ((a : ℕ) → a ≢ base → bases a ≡ w.bases a)
  unfolding take_packet
  take_run base flags w b head rest buf h v there some_there buffer header vector =
      elim (Bool-cases flags.peek) [
        | inl peek ↦ (
          w.bases,
          rw (there, some_there, peek, buffer, header, vector) refl,
          rw (peek) there,
          λ a ne. refl,
        )
        | inr take ↦ (
          update w.bases base (record b { waiting = rest }),
          rw (there, some_there, take, buffer, header, vector) refl,
          rw (take, ==-same base) refl,
          λ a ne. ground arith,
        )
      ]

  module _ (p : Platform) where
    recv_run :
        (w w1 : World k e) (s user : ℕ) (flags : RecvFlags) (waits : List (World k e × Bool))
        (socket : TsnSocket e) (b : BaseSocket) (buffer msgh n : ℕ) (m : Memory)
        → s ≢ 0
        → s ≢ invalid_socket
        → user ≢ 0
        → buffer ≢ 0
        → w.sockets s ≡ some socket
        → w.bases socket.base ≡ some b
        → b.is_bound ≡ true
        → flags.errqueue ≡ false
        → await_packet k e socket.base flags waits w ≡ done w
        → take_packet k e socket.base flags w ≡ done (some (w1, buffer, msgh))
        → copy_message p w1.memory user msgh ≡ done (m, n)
        → tsn_recvmsg k e p w s user flags waits
          ≡ done (note k e (record w1 { memory = m }) (released buffer), returned n)
    unfolding tsn_recvmsg hand_over
    recv_run w w1 s user flags waits socket b buffer msgh n m ns ni nu nb there below bound plain
          waited taken copied =
        rw
          (
            there,
            ==-of-≢ s 0 ns,
            ==-of-≢ s invalid_socket ni,
            below,
            bound,
            ==-of-≢ user 0 nu,
            waited,
            taken,
            plain,
            copied,
            ==-of-≢ buffer 0 nb,
          )
          refl

    -- A packet with any payload: `at` and `size` are what prvMoveToStartOfPayload gives.
    packet_lem :
        (w : World k e) (s user : ℕ) (flags : RecvFlags) (waits : List (World k e × Bool))
        (socket : TsnSocket e) (b : BaseSocket) (head : ℕ) (rest : List ℕ) (buf : NetworkBuffer)
        (u h : Msghdr) (t v : IoVec) (old frame : List ℕ) (at size : ℕ)
        → s ≢ 0
        → s ≢ invalid_socket
        → user ≢ 0
        → head ≢ 0
        → w.sockets s ≡ some socket
        → w.bases socket.base ≡ some b
        → b.is_bound ≡ true
        → b.waiting ≡ head ∷ rest
        → flags.errqueue ≡ false
        → w.buffers head ≡ some buf
        → IsPacket p w.memory buf.ethernet h v frame at size
        → IsUser p w.memory user u t old
        → Apart p buf.ethernet h user u t
        → (w' : World k e) × (tsn_recvmsg k e p w s user flags waits
            ≡ done (w', returned (min t.len size)))
          × Received p w'.memory buf.ethernet h user u t old frame at (min t.len size)
          × (w'.bases socket.base ≡ some (left flags b rest))
          × (w'.buffers head ≡ some (record buf { ethernet = v.base }))
          × (w'.effects ≡ w.effects ++ (released head ∷ []))
          × ((a : ℕ) → a ≢ socket.base → w'.bases a ≡ w.bases a)
          × (w'.net ≡ w.net)
          × (w'.sockets ≡ w.sockets)
    packet_lem w s user flags waits socket b head rest buf u h t v old frame at size ns ni nu nb
          there below bound some_there plain buffer x y z =
        let (bases, taken, here, others) =
          take_run socket.base flags w b head rest buf h v below some_there buffer x.header
            x.vector in
        let (m, copied, received) =
          copy_message-Received p w.memory user buf.ethernet u h t v old frame at size x y z in
        (
          _,
          recv_run w _ s user flags waits socket b head buf.ethernet (min t.len size) m ns ni nu nb
              there below bound plain
              (await_run socket.base flags waits w b head rest below some_there) taken copied,
          received,
          here,
          rw (==-same head) refl,
          refl,
          others,
          refl,
          refl,
        )

    -- On a bound socket whose first packet has UDP over IPv4 with n bytes of data, and at least 8
    -- bytes of memory behind them, for a user's message with one vector and without room for a
    -- name and control data: FreeRTOS_TSN_recvmsg ends without a fault, and without waiting. It
    -- returns 8 + n, which is 8 more than there are data, or the room of the vector if that is
    -- smaller; so many bytes of the frame, from the start of the data on, stand in the user's
    -- array, whose other bytes are as they were. The message of the packet is freed, and its
    -- buffer, which has its frame again, is released once. The packet is taken from the socket,
    -- but not with FREERTOS_MSG_PEEK: then the buffer that was released still waits.
    pub tsn_recvmsg-Received :
        (w : World k e) (s user : ℕ) (flags : RecvFlags) (waits : List (World k e × Bool))
        (socket : TsnSocket e) (b : BaseSocket) (head : ℕ) (rest : List ℕ) (buf : NetworkBuffer)
        (u h : Msghdr) (t v : IoVec) (old frame : List ℕ) (n : ℕ)
        → s ≢ 0
        → s ≢ invalid_socket
        → user ≢ 0
        → head ≢ 0
        → w.sockets s ≡ some socket
        → w.bases socket.base ≡ some b
        → b.is_bound ≡ true
        → b.waiting ≡ head ∷ rest
        → flags.errqueue ≡ false
        → w.buffers head ≡ some buf
        → IsDatagram p w.memory buf.ethernet h v frame n
        → IsUser p w.memory user u t old
        → Apart p buf.ethernet h user u t
        → (w' : World k e) × (tsn_recvmsg k e p w s user flags waits
            ≡ done (w', returned (min t.len (8 + n))))
          × Received p w'.memory buf.ethernet h user u t old frame 42 (min t.len (8 + n))
          × (w'.bases socket.base ≡ some (left flags b rest))
          × (w'.buffers head ≡ some (record buf { ethernet = v.base }))
          × (w'.effects ≡ w.effects ++ (released head ∷ []))
          × ((a : ℕ) → a ≢ socket.base → w'.bases a ≡ w.bases a)
          × (w'.net ≡ w.net)
          × (w'.sockets ≡ w.sockets)
    tsn_recvmsg-Received w s user flags waits socket b head rest buf u h t v old frame n ns ni nu nb
          there below bound some_there plain buffer x y z =
        packet_lem w s user flags waits socket b head rest buf u h t v old frame 42 (8 + n) ns ni nu
          nb there below bound some_there plain buffer
          (datagram-IsPacket p w.memory buf.ethernet h v frame n x) y z
