-- ===== src/Ancillary.antt =====
-- source/FreeRTOS_TSN_Ancillary.c and include/FreeRTOS_TSN_Ancillary.h: the messages that carry
-- control information between the network interface and the sockets. An address that a function
-- gets first is what `pvPortMalloc` returned in it, and 0 is NULL.
pub mod Entries
pub mod Filling
pub mod Reading
pub mod Control
pub mod Free
pub mod Freed
use free_rtos_tsn_compatibil.Prelude.{
  ℕ, zero, suc, ◌+◌, ◌*◌, ◌/◌, Bool, true, false, ltb, ◌==◌, if◌then◌else◌, Option, none, some,
  List, [], ◌∷◌, get_elem?, length,
}
use free_rtos_tsn_compatibil.State.{Run, done, fault, ◌>>=◌, deref, update, u32}
use free_rtos_tsn_compatibil.Bytes.{copy_in, copy_out}
use free_rtos_tsn_compatibil.Frame.{Platform, store32, length-store32, load32-store32}
use free_rtos_tsn_compatibil.Memory.{
  IoVec, Msghdr, cleared, Memory, SockAddr, AddressLayout, size_of_pointer, free_message,
  free_iovecs, free_bytes,
}

-- `struct cmsghdr` has three fields of 4 bytes; `long` has 4 bytes.
abbrev pub size_of_cmsghdr : ℕ
size_of_cmsghdr = 12

-- `CMSG_ALIGN`, `CMSG_SPACE` and `CMSG_LEN`.
abbrev pub cmsg_align : ℕ → ℕ
cmsg_align len = u32 (len + 3) / 4 * 4

abbrev pub cmsg_space : ℕ → ℕ
cmsg_space len = u32 (cmsg_align size_of_cmsghdr + cmsg_align len)

abbrev pub cmsg_len : ℕ → ℕ
cmsg_len len = u32 (cmsg_align size_of_cmsghdr + len)

-- An entry of the vectors that `xAncillaryMsgControlFill` gets: the level and the type of its
-- header, and its data.
pub record ControlMessage : Type 0 where
  pub level : ℕ
  pub kind : ℕ
  pub payload : List ℕ

-- `CMSG_FIRSTHDR`: the offset of the first header.
abbrev pub first_header : ℕ → Option ℕ
first_header size = if ltb size size_of_cmsghdr then none else some 0

-- The loop of `xAncillaryMsgControlFill` over the lengths.
unfoldable pub total_space : List ControlMessage → ℕ → ℕ
total_space [] total = total
total_space (c ∷ cs) total = total_space cs (u32 (total + cmsg_space (length c.payload)))

-- `pxAncillaryMsgMalloc`, which clears the struct before any test of the address.
unfoldable pub msg_malloc : ℕ → Memory → Run Memory
msg_malloc p m =
    if p == 0 then fault else done (record m { messages = update m.messages p cleared })

-- `vAncillaryMsgFreeAll`.
unfoldable pub msg_free_all : Memory → ℕ → Run Memory
unfolding free_message free_iovecs free_bytes
msg_free_all m p = deref (m.messages p) >>= λ h.
    (if h.iov == 0 then done m else free_iovecs m h.iov) >>= λ m1.
    (if h.name == 0 then done m1 else free_bytes m1 h.name) >>= λ m2.
    (if h.control == 0 then done m2 else free_bytes m2 h.control) >>= λ m3. free_message m3 p

-- `xAncillaryMsgFillName`; true is pdPASS.
unfoldable pub msg_fill_name :
    AddressLayout → ℕ → Memory → ℕ → Option ℕ → ℕ → ℕ → Run (Memory × Bool)
msg_fill_name layout address m p none port family = deref (m.messages p) >>= λ h.
    done (record m { messages = update m.messages p (record h { name = 0; namelen = 0 }) }, true)
msg_fill_name layout address m p (some ip) port family =
    if address == 0
    then done (m, false)
    else (deref (m.messages p) >>= λ h.
        let sockaddr : SockAddr = record {
          sin_len = size_of_pointer;
          sin_family = family;
          sin_port = port;
          sin_flowinfo = 0;
          sin_address = ip;
        } in
        let h' = record h { name = address; namelen = size_of_pointer } in
        done (
          record m {
            messages = update m.messages p h';
            bytes = update m.bytes address (layout.encode sockaddr);
          },
          true,
        ))

-- `vAncillaryMsgFreeName`, `vAncillaryMsgFreeControl` and `vAncillaryMsgFree`.
unfoldable pub msg_free_name : Memory → ℕ → Run Memory
unfolding free_bytes
msg_free_name m p = deref (m.messages p) >>= λ h. free_bytes m h.name

unfoldable pub msg_free_control : Memory → ℕ → Run Memory
unfolding free_bytes
msg_free_control m p = deref (m.messages p) >>= λ h. free_bytes m h.control

unfoldable pub msg_free : Memory → ℕ → Run Memory
unfolding free_message
msg_free m p = free_message m p

-- `xAncillaryMsgFillPayload`.
unfoldable pub msg_fill_payload : ℕ → Memory → ℕ → ℕ → ℕ → Run (Memory × Bool)
msg_fill_payload address m p buffer len =
    if address == 0
    then done (m, false)
    else (deref (m.messages p) >>= λ h. done (
      record m {
        iovecs = update m.iovecs address (record { base = buffer; offset = 0; len = len } ∷ []);
        messages = update m.messages p (record h { iov = address; iovlen = 1 });
      },
      true,
    ))

-- The loop of `vAncillaryMsgFreePayload`: the rounds left, and the index.
unfoldable pub free_bases : ℕ → ℕ → ℕ → Memory → Run Memory
unfolding free_bytes
free_bases iov zero i m = done m
free_bases iov (suc rounds) i m = deref (m.iovecs iov) >>= λ vec.
    deref (get_elem? vec i) >>= λ v. free_bytes m v.base >>= λ m'. free_bases iov rounds (i + 1) m'

-- `vAncillaryMsgFreePayload`.
unfoldable pub msg_free_payload : Memory → ℕ → Run Memory
unfolding free_bases free_iovecs
msg_free_payload m p =
    deref (m.messages p) >>= λ h. free_bases h.iov h.iovlen 0 m >>= λ m'. free_iovecs m' h.iov

module _ (p : Platform) where
  -- `__CMSG_NXTHDR` on the header at an offset.
  unfoldable pub next_header : List ℕ → ℕ → ℕ → Run (Option ℕ)
  next_header bytes size at = copy_out at 4 bytes >>= λ len.
      let next = at + cmsg_align (p.load32 len) in
      done (if ltb size (next + size_of_cmsghdr) then none else some next)

  -- The body of the second loop of `xAncillaryMsgControlFill`: the three fields and the data.
  unfoldable pub put_message : ControlMessage → ℕ → List ℕ → Run (List ℕ)
  put_message c at bytes = copy_in at (store32 p (cmsg_len (length c.payload))) bytes >>= λ b1.
      copy_in (at + 4) (store32 p c.level) b1 >>= λ b2.
      copy_in (at + 8) (store32 p c.kind) b2 >>= λ b3.
      copy_in (at + cmsg_align size_of_cmsghdr) c.payload b3

  -- The loop, with `pxCmsghIter`; `none` at the end is the return of pdFAIL.
  unfoldable pub put_messages : List ControlMessage → Option ℕ → ℕ → List ℕ → Run (Option (List ℕ))
  unfolding put_message next_header
  put_messages [] iter size bytes = done (some bytes)
  put_messages (c ∷ cs) none size bytes = done none
  put_messages (c ∷ cs) (some at) size bytes = put_message c at bytes >>= λ bytes'.
      next_header bytes' size at >>= λ next. put_messages cs next size bytes'

  -- `xAncillaryMsgControlFill`; `fresh` is what the allocated memory holds before.
  unfoldable pub control_fill : ℕ → List ℕ → Memory → ℕ → List ControlMessage → Run (Memory × Bool)
  unfolding total_space put_messages
  control_fill address fresh m p cs =
      if p == 0
      then done (m, false)
      else (deref (m.messages p) >>= λ h.
          let empty = record m {
            messages = update m.messages p (record h { control = 0; controllen = 0 });
          } in
          let size = total_space cs 0 in
          if address == 0
          then done (empty, false)
          else (put_messages cs (first_header size) size fresh >>= λ filled. done (elim filled [
            | none ↦ (empty, false)
            | some bytes ↦ (
              record m {
                messages = update m.messages p (record h { control = address; controllen = size });
                bytes = update m.bytes address bytes;
              },
              true,
            )
          ])))
