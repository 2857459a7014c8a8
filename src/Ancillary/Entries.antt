-- ===== src/Ancillary/Entries.antt =====
-- The bytes of control messages in a buffer, and the walk of a receiver over them with the macros
-- of include/FreeRTOS_TSN_Ancillary.h.
use mathlib.Core.List.{append_assoc}
use free_rtos_tsn_compatibil.Prelude.{
  ℕ, zero, suc, ◌+◌, ◌-◌, ◌*◌, ◌/◌, ◌^◌, ◌<◌, ◌≡◌, refl, ltb, if◌then◌else◌, Option, none, some,
  List, [], ◌∷◌, ◌++◌, length, length-append, arith,
}
use free_rtos_tsn_compatibil.State.{Run, done, fault, ◌>>=◌, u32}
use free_rtos_tsn_compatibil.Bytes.{copy_out}
use free_rtos_tsn_compatibil.Bytes.Copy.{copy_out_at}
use free_rtos_tsn_compatibil.Frame.{Platform, store32, length-store32, load32-store32}
use free_rtos_tsn_compatibil.Ancillary.{
  ControlMessage, cmsg_align, cmsg_len, cmsg_space, total_space, next_header,
}

-- The bytes that the messages take: 12 for the header and the data rounded up to 4.
unfoldable pub needed : List ControlMessage → ℕ
needed [] = 0
needed (c ∷ cs) = 12 + (length c.payload + 3) / 4 * 4 + needed cs

pub total_space_lem :
    (cs : List ControlMessage) (t : ℕ) → t + needed cs < 2 ^ 32 → total_space cs t ≡ t + needed cs
unfolding total_space needed
total_space_lem [] t h = omega arith
total_space_lem (c ∷ cs) t h =
    let step : u32 (t + cmsg_space (length c.payload)) ≡ t + (12 + (length c.payload + 3) / 4 * 4) =
      omega arith in
    rw (step) (omega (arith, total_space_lem cs (t + (12 + (length c.payload + 3) / 4 * 4))))

-- The offset of a header, if there is room for one.
abbrev pub header_at : ℕ → ℕ → Option ℕ
header_at size at = if ltb size (at + 12) then none else some at

module _ (p : Platform) where
  -- The loop of a receiver over the headers: the length, the level, the type and the data.
  unfoldable pub read_message : List ℕ → ℕ → Run ControlMessage
  read_message bytes at = copy_out at 4 bytes >>= λ len. copy_out (at + 4) 4 bytes >>= λ level.
      copy_out (at + 8) 4 bytes >>= λ kind.
      copy_out (at + 12) (p.load32 len - 12) bytes >>= λ payload.
      done (record { level = p.load32 level; kind = p.load32 kind; payload = payload })

  unfoldable pub read_messages : ℕ → Option ℕ → ℕ → List ℕ → Run (List ControlMessage)
  read_messages rounds none size bytes = done []
  read_messages zero (some at) size bytes = fault
  read_messages (suc rounds) (some at) size bytes = read_message bytes at >>= λ c.
      next_header p bytes size at >>= λ next.
      read_messages rounds next size bytes >>= λ cs. done (c ∷ cs)

  -- The bytes hold the messages one behind another.
  unfoldable pub IsControl : List ControlMessage → List ℕ → Type 0
  IsControl [] bytes = bytes ≡ []
  IsControl (c ∷ cs) bytes =
      (pad : List ℕ) × (rest : List ℕ) × (bytes
        ≡ store32 p (cmsg_len (length c.payload))
          ++ (store32 p c.level ++ (store32 p c.kind ++ (c.payload ++ (pad ++ rest)))))
      × (length c.payload + length pad ≡ (length c.payload + 3) / 4 * 4)
      × IsControl cs rest

  pub next_header_lem :
      (c : ControlMessage) (front rest : List ℕ) (size : ℕ)
      → 12 + (length c.payload + 3) / 4 * 4 < 2 ^ 32
      → next_header p
          (front ++ (store32 p (cmsg_len (length c.payload)) ++ rest))
          size
          (length front)
        ≡ done (header_at size (length front + (12 + (length c.payload + 3) / 4 * 4)))
  unfolding next_header
  next_header_lem c front rest size h =
      let len : cmsg_len (length c.payload) ≡ 12 + length c.payload = omega arith in
      let back = load32-store32 p (cmsg_len (length c.payload)) (omega arith) in
      let aligned : cmsg_align (12 + length c.payload) ≡ 12 + (length c.payload + 3) / 4 * 4 =
        omega arith in
      rw
        (
          copy_out_at (length front) 4 front (store32 p (cmsg_len (length c.payload))) rest refl
              (length-store32 p (cmsg_len (length c.payload))),
          back,
          len,
          aligned,
        )
        refl

  -- The bytes of a message with its padding, in front of a rest.
  abbrev pub entry : ControlMessage → List ℕ → List ℕ → List ℕ
  entry c pad rest =
      store32 p (cmsg_len (length c.payload))
      ++ (store32 p c.level ++ (store32 p c.kind ++ (c.payload ++ (pad ++ rest))))

  -- The front of the next message.
  abbrev pub longer_front : ControlMessage → List ℕ → List ℕ → List ℕ
  longer_front c front pad =
      front
      ++ (store32 p (cmsg_len (length c.payload))
          ++ (store32 p c.level ++ (store32 p c.kind ++ (c.payload ++ pad))))

  pub length-longer_front :
      (c : ControlMessage) (front pad : List ℕ)
      → length (longer_front c front pad) ≡ length front + (12 + (length c.payload + length pad))
  length-longer_front c front pad =
      let s1 = store32 p (cmsg_len (length c.payload)) in
      let s2 = store32 p c.level in
      let s3 = store32 p c.kind in
      omega (
        arith,
        length-append front (s1 ++ (s2 ++ (s3 ++ (c.payload ++ pad)))),
        length-append s1 (s2 ++ (s3 ++ (c.payload ++ pad))),
        length-append s2 (s3 ++ (c.payload ++ pad)),
        length-append s3 (c.payload ++ pad),
        length-append c.payload pad,
        length-store32 p (cmsg_len (length c.payload)),
        length-store32 p c.level,
        length-store32 p c.kind,
      )

  pub longer_front-append :
      (c : ControlMessage) (front pad rest : List ℕ)
      → longer_front c front pad ++ rest ≡ front ++ entry c pad rest
  longer_front-append c front pad rest = simp append_assoc
