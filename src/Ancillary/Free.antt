-- ===== src/Ancillary/Free.antt =====
-- The release of a message and what hangs on it (source/FreeRTOS_TSN_Ancillary.c).
use free_rtos_tsn_compatibil.Prelude.{
  ℕ, ◌≡◌, ◌≢◌, ==-of-≢, ==-same, Option, none, some, [], ◌∷◌, arith,
}
use free_rtos_tsn_compatibil.State.{done, ◌>>=◌, update, release}
use free_rtos_tsn_compatibil.Memory.{
  Memory, SockAddr, cleared, size_of_pointer, AddressLayout, free_message, free_iovecs, free_bytes,
}
use free_rtos_tsn_compatibil.Ancillary.{msg_malloc, msg_fill_name, msg_fill_payload, msg_free_all}

release-update {ℓ} :
    {A : Type ℓ} (f : ℕ → Option A) (p : ℕ) (v : A) (a : ℕ)
    → f p ≡ none
    → release (update f p v) p a ≡ f a
release-update f p v a free = ground arith

-- A message that is created at a free address that is not NULL, given a name and a payload at such
-- addresses, and freed with vAncillaryMsgFreeAll: no call faults, and at every address the memory
-- is as it was before.
pub built_and_freed :
    (layout : AddressLayout) (m : Memory) (message name iov buffer len ip port family : ℕ)
    → message ≢ 0
    → name ≢ 0
    → iov ≢ 0
    → m.messages message ≡ none
    → m.bytes name ≡ none
    → m.iovecs iov ≡ none
    → (m' : Memory) × ((msg_malloc message m >>= λ m1.
          msg_fill_name layout name m1 message (some ip) port family >>= λ (m2, named).
          msg_fill_payload iov m2 message buffer len >>= λ (m3, filled). msg_free_all m3 message)
        ≡ done m')
      × ((a : ℕ)
          → (m'.messages a ≡ m.messages a) × (m'.bytes a ≡ m.bytes a) × (m'.iovecs a ≡ m.iovecs a))
unfolding msg_malloc msg_fill_name msg_fill_payload msg_free_all free_message free_iovecs free_bytes
built_and_freed layout m message name iov buffer len ip port family nm nn ni fm fn fi =
    let named = record cleared { name = name; namelen = size_of_pointer } in
    let filled = record named { iov = iov; iovlen = 1 } in
    let sockaddr : SockAddr = record {
      sin_len = size_of_pointer;
      sin_family = family;
      sin_port = port;
      sin_flowinfo = 0;
      sin_address = ip;
    } in
    let messages =
      update (update (update m.messages message cleared) message named) message filled in
    (
      record {
        messages = release messages message;
        iovecs =
            release (update m.iovecs iov (record { base = buffer; offset = 0; len = len } ∷ []))
              iov;
        bytes = release (update m.bytes name (layout.encode sockaddr)) name;
      },
      simp (
        ==-of-≢ message 0 nm,
        ==-of-≢ name 0 nn,
        ==-of-≢ iov 0 ni,
        ==-same message,
        ==-same name,
        ==-same iov,
      ),
      λ a. (ground arith, release-update m.bytes name _ a fn, release-update m.iovecs iov _ a fi),
    )
