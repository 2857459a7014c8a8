-- ===== src/Memory.antt =====
-- The memory that holds the messages of source/include/FreeRTOS_TSN_Ancillary.h: the structs
-- `struct msghdr` and `struct iovec`, and arrays of bytes, each behind its address. Sizes are
-- those of a 32-bit target.
use free_rtos_tsn_compatibil.Prelude.{ℕ, ◌==◌, ◌≡◌, Option, List, length, if◌then◌else◌}
use free_rtos_tsn_compatibil.State.{Run, done, ◌>>=◌, deref, release}

-- `struct iovec`. The pointer is an allocated address and an offset from it.
pub record IoVec : Type 0 where
  pub base : ℕ
  pub offset : ℕ
  pub len : ℕ

-- `struct msghdr`.
pub record Msghdr : Type 0 where
  pub name : ℕ
  pub namelen : ℕ
  pub iov : ℕ
  pub iovlen : ℕ
  pub control : ℕ
  pub controllen : ℕ
  pub flags : ℕ

-- What `memset` with zeros leaves.
abbrev pub cleared : Msghdr
cleared = record {
  name = 0;
  namelen = 0;
  iov = 0;
  iovlen = 0;
  control = 0;
  controllen = 0;
  flags = 0;
}

-- `bytes` has the frames, the names, the control buffers and the buffers of the callers.
pub record Memory : Type 0 where
  pub messages : ℕ → Option Msghdr
  pub iovecs : ℕ → Option (List IoVec)
  pub bytes : ℕ → Option (List ℕ)

-- `struct freertos_sockaddr` of FreeRTOS-Plus-TCP.
pub record SockAddr : Type 0 where
  pub sin_len : ℕ
  pub sin_family : ℕ
  pub sin_port : ℕ
  pub sin_flowinfo : ℕ
  pub sin_address : ℕ

-- How that struct stands in memory.
pub record AddressLayout : Type 0 where
  pub size : ℕ
  pub encode : SockAddr → List ℕ
  pub length_encode : (a : SockAddr) → length (encode a) ≡ size

abbrev pub size_of_pointer : ℕ
size_of_pointer = 4

-- `vPortFree` of each kind of memory, which leaves NULL alone. To free what is not allocated is a
-- fault.
unfoldable pub free_message : Memory → ℕ → Run Memory
free_message m p =
    if p == 0
    then done m
    else deref (m.messages p) >>= λ old. done (record m { messages = release m.messages p })

unfoldable pub free_iovecs : Memory → ℕ → Run Memory
free_iovecs m p =
    if p == 0
    then done m
    else deref (m.iovecs p) >>= λ old. done (record m { iovecs = release m.iovecs p })

unfoldable pub free_bytes : Memory → ℕ → Run Memory
free_bytes m p =
    if p == 0
    then done m
    else deref (m.bytes p) >>= λ old. done (record m { bytes = release m.bytes p })
