-- ===== src/Ancillary/Reading.antt =====
-- What the walk of a receiver reads from a buffer that holds control messages.
use mathlib.Core.List.{append_assoc}
use free_rtos_tsn_compatibil.Prelude.{
  ℕ, ◌+◌, ◌-◌, ◌*◌, ◌/◌, ◌^◌, ◌<◌, ◌≡◌, refl, none, some, List, [], ◌∷◌, ◌++◌, length,
  length-append, All, arith,
}
use free_rtos_tsn_compatibil.State.{done}
use free_rtos_tsn_compatibil.Bytes.{copy_out}
use free_rtos_tsn_compatibil.Bytes.Copy.{copy_out_at}
use free_rtos_tsn_compatibil.Frame.{Platform, store32, length-store32, load32-store32}
use free_rtos_tsn_compatibil.Ancillary.{ControlMessage, cmsg_len}
use free_rtos_tsn_compatibil.Ancillary.Entries.{
  needed, read_message, read_messages, IsControl, header_at, next_header_lem, entry, longer_front,
  length-longer_front, longer_front-append,
}

-- The header fields fit their 32 bits.
abbrev pub Fits : ControlMessage → Type 0
Fits c = (c.level < 2 ^ 32) × (c.kind < 2 ^ 32)

module _ (p : Platform) where
  read_message_lem :
      (c : ControlMessage) (front pad rest : List ℕ)
      → 12 + length c.payload < 2 ^ 32
      → Fits c
      → read_message p (front ++ entry p c pad rest) (length front) ≡ done c
  unfolding read_message
  read_message_lem c front pad rest small (level, kind) =
      let s1 = store32 p (cmsg_len (length c.payload)) in
      let s2 = store32 p c.level in
      let s3 = store32 p c.kind in
      let at = length front in
      let n1 = length-store32 p (cmsg_len (length c.payload)) in
      let n2 = length-store32 p c.level in
      let n3 = length-store32 p c.kind in
      let c1 = copy_out_at at 4 front s1 (s2 ++ (s3 ++ (c.payload ++ (pad ++ rest)))) refl n1 in
      let c2 : copy_out (at + 4) 4 (front ++ entry p c pad rest) ≡ done s2 = simp append_assoc at (
        copy_out_at (at + 4) 4 (front ++ s1) s2 (s3 ++ (c.payload ++ (pad ++ rest)))
          (omega (arith, length-append front s1)) n2) in
      let c3 : copy_out (at + 8) 4 (front ++ entry p c pad rest) ≡ done s3 = simp append_assoc at (
        copy_out_at (at + 8) 4 (front ++ (s1 ++ s2)) s3 (c.payload ++ (pad ++ rest))
          (omega (arith, length-append front (s1 ++ s2), length-append s1 s2)) n3) in
      let c4 : copy_out (at + 12) (length c.payload) (front ++ entry p c pad rest)
          ≡ done c.payload =
        simp append_assoc at (
          copy_out_at (at + 12) (length c.payload) (front ++ (s1 ++ (s2 ++ s3))) c.payload
            (pad ++ rest)
            (omega (
              arith,
              length-append front (s1 ++ (s2 ++ s3)),
              length-append s1 (s2 ++ s3),
              length-append s2 s3,
            ))
            refl) in
      let b1 : p.load32 s1 - 12 ≡ length c.payload =
        omega (arith, load32-store32 p (cmsg_len (length c.payload))) in
      rw (c1, c2, c3, b1, c4, load32-store32 p c.level level, load32-store32 p c.kind kind) refl

  pub read_messages_lem :
      (cs : List ControlMessage) (at : ℕ) (front bytes : List ℕ) (size : ℕ)
      → length front ≡ at
      → at + needed cs ≡ size
      → size < 2 ^ 32
      → All Fits cs
      → IsControl p cs bytes
      → read_messages p (length cs) (header_at size at) size (front ++ bytes) ≡ done cs
  unfolding read_messages needed IsControl
  read_messages_lem [] at front bytes size f e h fits control =
      let none_left : header_at size at ≡ none = ground arith in rw (none_left) refl
  read_messages_lem (c ∷ cs) at front bytes size f e h (fit, fits)
        (pad, rest, parts, pads, control) =
      let room : header_at size (length front) ≡ some (length front) = ground arith in
      let one = read_message_lem c front pad rest (omega arith) fit in
      let after =
        next_header_lem p c front
          (store32 p c.level ++ (store32 p c.kind ++ (c.payload ++ (pad ++ rest)))) size
          (omega arith) in
      let others =
        read_messages_lem cs (length front + (12 + (length c.payload + 3) / 4 * 4))
          (longer_front p c front pad) rest size (omega (arith, length-longer_front p c front pad))
          (omega arith) h fits control in
      let others' = rw (longer_front-append p c front pad rest) at others in
      rw (← f, parts, room, one, after, others') refl
