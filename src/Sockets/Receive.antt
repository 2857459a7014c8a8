-- ===== src/Sockets/Receive.antt =====
-- source/FreeRTOS_TSN_Sockets.c: FreeRTOS_TSN_recvmsg and FreeRTOS_TSN_recvfrom.
pub mod Message
pub mod Payload
pub mod Lapse
pub mod Region
pub mod Copied
pub mod Datagram
pub mod Taken
use free_rtos_tsn_compatibil.Prelude.{
  ℕ, zero, suc, ◌+◌, ◌/◌, ◌%◌, ◌^◌, min, Bool, true, false, ◌==◌, ◌||◌, ◌&&◌, not, if◌then◌else◌,
  Option, none, some, List, [], ◌∷◌, ◌++◌, get_elem?, set,
}
use free_rtos_tsn_compatibil.Kernel.{Kernel, PointerQueues}
use free_rtos_tsn_compatibil.State.{Run, done, fault, out_of_fuel, ◌>>=◌, deref, update, u32}
use free_rtos_tsn_compatibil.Bytes.{copy_in, copy_out}
use free_rtos_tsn_compatibil.Frame.{Platform, size_of_eth_header, frame_type_offset}
use free_rtos_tsn_compatibil.Memory.{IoVec, Msghdr, Memory, AddressLayout}
use free_rtos_tsn_compatibil.Ancillary.{msg_free_all}
use free_rtos_tsn_compatibil.World.{
  NetworkBuffer, BaseSocket, TsnSocket, World, released, note, Outcome, returned, negative, einval,
  ewouldblock, invalid_socket,
}

-- `FREERTOS_MSG_ERRQUEUE`, `FREERTOS_MSG_DONTWAIT` and `FREERTOS_MSG_PEEK` in the flags of a call.
pub record RecvFlags : Type 0 where
  pub errqueue : Bool
  pub dont_wait : Bool
  pub peek : Bool

module _ (p : Platform) where
  -- The first `switch` of `prvMoveToStartOfPayload`, on a frame at an offset: the protocol, and
  -- the size of the headers of Ethernet and IP.
  unfoldable pub read_protocol : List ℕ → ℕ → Run (ℕ × ℕ)
  read_protocol bytes at = deref (get_elem? bytes (at + 12)) >>= λ low.
      deref (get_elem? bytes (at + 13)) >>= λ high.
      if p.load16 low high == p.ipv4_frame_type
      then (deref (get_elem? bytes (at + 23)) >>= λ protocol. done (protocol, 34))
      else if p.load16 low high == p.ipv6_frame_type
      then (deref (get_elem? bytes (at + 20)) >>= λ protocol. done (protocol, 54))
      else done (255, 14)

  -- `prvMoveToStartOfPayload`, on the offset of a frame and its size; ipPROTOCOL_UDP is 17.
  unfoldable pub move_to_start_of_payload : List ℕ → ℕ → ℕ → Run (ℕ × ℕ)
  unfolding read_protocol
  move_to_start_of_payload bytes at size = read_protocol bytes at >>= λ (protocol, prefix).
      if protocol == 17
      then (deref (get_elem? bytes (at + prefix + 4)) >>= λ low.
          deref (get_elem? bytes (at + prefix + 5)) >>= λ high.
          done (at + prefix + 8, p.ntohs (p.load16 low high)))
      else done (at, size)

  -- The call of it on the first of the vectors at an address.
  unfoldable pub move_first : Memory → ℕ → Run Memory
  unfolding move_to_start_of_payload
  move_first m iov = deref (m.iovecs iov) >>= λ vec. deref (get_elem? vec 0) >>= λ v.
      deref (m.bytes v.base) >>= λ bytes.
      move_to_start_of_payload bytes v.offset v.len >>= λ (at, size).
      done (record m {
        iovecs = update m.iovecs iov (set vec 0 (record v { offset = at; len = size }));
      })

-- `memcpy` between arrays of bytes: to an address and an offset, from an address and an offset.
unfoldable pub copy_region : Memory → ℕ → ℕ → ℕ → ℕ → ℕ → Run Memory
copy_region m to to_offset from from_offset zero = done m
copy_region m to to_offset from from_offset (suc n) = deref (m.bytes from) >>= λ source.
    copy_out from_offset (suc n) source >>= λ copied. deref (m.bytes to) >>= λ old.
    copy_in to_offset copied old >>= λ new. done (record m { bytes = update m.bytes to new })

-- The loop over the elements of the payload: the rounds left, the index, the vectors of the user
-- and of the message, and the length so far.
unfoldable pub copy_vectors : ℕ → ℕ → ℕ → ℕ → Memory → ℕ → Run (Memory × ℕ)
unfolding copy_region
copy_vectors zero i user iov m total = done (m, total)
copy_vectors (suc rounds) i user iov m total = deref (m.iovecs user) >>= λ to.
    deref (get_elem? to i) >>= λ t. deref (m.iovecs iov) >>= λ from.
    deref (get_elem? from i) >>= λ f.
    let len = min t.len f.len in
    copy_region m t.base t.offset f.base f.offset len >>= λ m1.
    let m2 = record m1 { iovecs = update m1.iovecs user (set to i (record t { len = len })) } in
    copy_vectors rounds (i + 1) user iov m2 (u32 (total + len))

-- The copy of the name: the user's struct and the message's.
unfoldable pub copy_name : Memory → Msghdr → Msghdr → Run (Memory × Msghdr)
unfolding copy_region
copy_name m u h =
    if not (h.name == 0) && not (u.name == 0)
    then (let len = min u.namelen h.namelen in
        copy_region m u.name 0 h.name 0 len >>= λ m'. done (m', record u { namelen = len }))
    else done (m, record u { namelen = 0 })

unfoldable pub copy_control : Memory → Msghdr → Msghdr → Run (Memory × Msghdr)
unfolding copy_region
copy_control m u h =
    if not (u.control == 0) && not (h.control == 0)
    then (let len = min u.controllen h.controllen in
        copy_region m u.control 0 h.control 0 len >>= λ m'.
        done (m', record u { controllen = len }))
    else done (m, record u { controllen = 0 })

-- The copy of the payload, with its length.
unfoldable pub copy_payload : Platform → Memory → Msghdr → Msghdr → Run (Memory × Msghdr × ℕ)
unfolding move_first copy_vectors
copy_payload p m u h =
    if not (h.iov == 0) && not (u.iov == 0)
    then (move_first p m h.iov >>= λ m1.
        let rounds = min u.iovlen h.iovlen in
        copy_vectors rounds 0 u.iov h.iov m1 0 >>= λ (m2, total).
        done (m2, record u { iovlen = rounds }, total))
    else done (m, record u { iovlen = 0 }, 0)

-- The end of FreeRTOS_TSN_recvmsg on the memory: the message at an address is copied to the user's
-- and freed.
unfoldable pub copy_message : Platform → Memory → ℕ → ℕ → Run (Memory × ℕ)
unfolding copy_name copy_payload copy_control msg_free_all
copy_message p m user msgh = deref (m.messages user) >>= λ u. deref (m.messages msgh) >>= λ h.
    copy_name m u h >>= λ (m1, u1). copy_payload p m1 u1 h >>= λ (m2, u2, total).
    copy_control m2 u2 h >>= λ (m3, u3).
    let m4 = record m3 { messages = update m3.messages user (record u3 { flags = h.flags }) } in
    msg_free_all m4 msgh >>= λ m5. done (m5, total)
