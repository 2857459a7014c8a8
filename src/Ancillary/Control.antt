-- ===== src/Ancillary/Control.antt =====
-- Control messages that `xAncillaryMsgControlFill` (source/FreeRTOS_TSN_Ancillary.c) writes are
-- read back by the macros of include/FreeRTOS_TSN_Ancillary.h.
use free_rtos_tsn_compatibil.Prelude.{
  ℕ, ◌^◌, ◌<◌, ◌≡◌, ◌≢◌, refl, true, some, List, [], length, All, arith,
}
use free_rtos_tsn_compatibil.State.{done, update}
use free_rtos_tsn_compatibil.Frame.{Platform}
use free_rtos_tsn_compatibil.Memory.{Memory, Msghdr}
use free_rtos_tsn_compatibil.Ancillary.{
  ControlMessage, first_header, total_space, put_messages, control_fill,
}
use free_rtos_tsn_compatibil.Ancillary.Entries.{needed, total_space_lem, read_messages}
use free_rtos_tsn_compatibil.Ancillary.Filling.{Fills, put_messages_lem}
use free_rtos_tsn_compatibil.Ancillary.Reading.{Fits, read_messages_lem}

module _ (p : Platform) where
  control_fill_run :
      (address : ℕ) (fresh : List ℕ) (m : Memory) (q : ℕ) (h : Msghdr) (cs : List ControlMessage)
      (n : ℕ) (bytes : List ℕ)
      → q ≢ 0
      → address ≢ 0
      → m.messages q ≡ some h
      → total_space cs 0 ≡ n
      → put_messages p cs (first_header n) n fresh ≡ done (some bytes)
      → control_fill p address fresh m q cs
        ≡ done (
          record m {
            messages = update m.messages q (record h { control = address; controllen = n });
            bytes = update m.bytes address bytes;
          },
          true,
        )
  unfolding control_fill
  control_fill_run address fresh m q h cs n bytes nq na there size run = ground arith

  -- What the call leaves, and what is read from it.
  pub control_fill_lem :
      (address : ℕ) (fresh : List ℕ) (m : Memory) (q : ℕ) (h : Msghdr) (cs : List ControlMessage)
      → q ≢ 0
      → address ≢ 0
      → m.messages q ≡ some h
      → needed cs < 2 ^ 32
      → length fresh ≡ total_space cs 0
      → All Fits cs
      → (bytes : List ℕ) × (control_fill p address fresh m q cs
          ≡ done (
            record m {
              messages =
                  update m.messages q (record h { control = address; controllen = needed cs });
              bytes = update m.bytes address bytes;
            },
            true,
          ))
        × (read_messages p (length cs) (first_header (needed cs)) (needed cs) bytes ≡ done cs)
  unfolding Fills
  control_fill_lem address fresh m q h cs nq na there small room fits =
      let size = total_space_lem cs 0 (omega arith) in
      let (bytes, run, control) =
        put_messages_lem p cs (needed cs) small 0 [] fresh refl (omega arith) (omega arith) in
      let read =
        read_messages_lem p cs 0 [] bytes (needed cs) refl (omega arith) small fits control in
      (
        bytes,
        control_fill_run address fresh m q h cs (needed cs) bytes nq na there (omega arith) run,
        read,
      )

  -- For a message at an allocated address, memory of the computed size at an address that is not
  -- NULL, header fields of 32 bits, and entries that take less than 2 ^ 32 bytes together,
  -- xAncillaryMsgControlFill neither writes out of that memory nor returns pdFAIL; msg_control and
  -- msg_controllen give the memory, and the walk with CMSG_FIRSTHDR and CMSG_NXTHDR over it gives
  -- each entry, with its data, in order, and ends there.
  pub control_fill-read_messages :
      (address : ℕ) (fresh : List ℕ) (m : Memory) (q : ℕ) (h : Msghdr) (cs : List ControlMessage)
      → q ≢ 0
      → address ≢ 0
      → m.messages q ≡ some h
      → needed cs < 2 ^ 32
      → length fresh ≡ total_space cs 0
      → All Fits cs
      → (m' : Memory) × (bytes : List ℕ) × (control_fill p address fresh m q cs ≡ done (m', true))
        × (m'.messages q ≡ some (record h { control = address; controllen = needed cs }))
        × (m'.bytes address ≡ some bytes)
        × (read_messages p (length cs) (first_header (needed cs)) (needed cs) bytes ≡ done cs)
  control_fill-read_messages address fresh m q h cs nq na there small room fits =
      let (bytes, run, read) =
        control_fill_lem address fresh m q h cs nq na there small room fits in
      (_, bytes, run, ground arith, ground arith, read)
