-- ===== src/DiffServ/RoundTrip.antt =====
-- What is set as the class of differentiated services is read back (source/FreeRTOS_TSN_DS.c).
use free_rtos_tsn_compatibil.Prelude.{
  ℕ, ◌+◌, ◌<◌, ◌≡◌, refl, ap, ◌∙◌, ◌⊎◌, inl, inr, true, ◌==◌, if◌then◌else◌, Bool-cases, some,
  get_elem?, set, get_elem?-set, lt_of_get_elem?, arith,
}
use free_rtos_tsn_compatibil.State.{Run, done, fault, out_of_fuel, ◌>>=◌, >>=-eq-done, deref}
use free_rtos_tsn_compatibil.Frame.{Platform, Buffer, read8, write8, read16}
use free_rtos_tsn_compatibil.DiffServ.{
  get_dsclass_ipv6, set_dsclass_ipv4, set_version_class, set_class_flow, get_ip_version_and_offset,
  dsclass_at, pass, ds_class_get, set_dsclass_at, ds_class_set,
}

-- After a write that succeeds, the byte is the one written and the others are as they were.
pub write8_lem :
    (buf buf' : Buffer) (i v : ℕ)
    → write8 buf i v ≡ done buf'
    → (j : ℕ) → read8 buf' j ≡ (if i == j then done v else read8 buf j)
unfolding read8 write8
write8_lem buf buf' i v h j =
    let (old, there, e) =
      >>=-eq-done (deref (get_elem? buf.bytes i))
        (λ x. done (record buf { bytes = set buf.bytes i v })) h in
    let there' : get_elem? buf.bytes i ≡ some old = ground arith in
    let fits = lt_of_get_elem? buf.bytes i there' in
    ground (arith, get_elem?-set buf.bytes i j v fits)

passed_lem : (m : Run Buffer) (buf' : Buffer) → (m >>= pass) ≡ done (buf', true) → m ≡ done buf'
passed_lem (done b) buf' h = cc
passed_lem fault buf' h = cc
passed_lem out_of_fuel buf' h = cc

-- The two bytes that the four steps for an IPv6 header leave, and the others as they were.
write_ipv6_lem :
    (buf buf' : Buffer) (offset value : ℕ)
    → (read8 buf offset >>= λ a. write8 buf offset (set_version_class a value) >>= λ buf1.
        read8 buf1 (offset + 1) >>= λ b. write8 buf1 (offset + 1) (set_class_flow b value) >>= pass)
      ≡ done (buf', true)
    → (a : ℕ) × (b : ℕ) × (read8 buf' offset ≡ done (set_version_class a value))
      × (read8 buf' (offset + 1) ≡ done (set_class_flow b value))
      × ((j : ℕ) → j < offset → read8 buf' j ≡ read8 buf j)
write_ipv6_lem buf buf' offset value h =
    let (a, read_a, h1) =
      >>=-eq-done (read8 buf offset)
        (λ a. write8 buf offset (set_version_class a value) >>= λ buf1.
          read8 buf1 (offset + 1) >>= λ b.
          write8 buf1 (offset + 1) (set_class_flow b value) >>= pass)
        h in
    let (buf1, wrote1, h2) =
      >>=-eq-done (write8 buf offset (set_version_class a value))
        (λ buf1. read8 buf1 (offset + 1) >>= λ b.
          write8 buf1 (offset + 1) (set_class_flow b value) >>= pass)
        h1 in
    let (b, read_b, h3) =
      >>=-eq-done (read8 buf1 (offset + 1))
        (λ b. write8 buf1 (offset + 1) (set_class_flow b value) >>= pass) h2 in
    let wrote2 = passed_lem (write8 buf1 (offset + 1) (set_class_flow b value)) buf' h3 in
    let first = write8_lem buf buf1 offset (set_version_class a value) wrote1 in
    let second = write8_lem buf1 buf' (offset + 1) (set_class_flow b value) wrote2 in
    (
      a,
      b,
      ground (arith, first offset, second offset),
      ground (arith, second (offset + 1)),
      λ j below. ground (arith, first j, second j),
    )

-- The class that is packed into the two bytes of an IPv6 header is unpacked again.
get_dsclass_ipv6-set :
    (a b value : ℕ)
    → value < 64
    → get_dsclass_ipv6 (set_version_class a value) (set_class_flow b value) ≡ value
get_dsclass_ipv6-set a b value small = omega arith

module _ (p : Platform) where
  -- The class reads back where it was set, and the bytes before the header are as they were.
  set_dsclass_at_lem :
      (buf buf' : Buffer) (version offset value : ℕ)
      → value < 64
      → set_dsclass_at p buf version offset value ≡ done (buf', true)
      → (dsclass_at p buf' version offset ≡ done value)
        × ((j : ℕ) → j < offset → read8 buf' j ≡ read8 buf j)
  unfolding set_dsclass_at dsclass_at
  set_dsclass_at_lem buf buf' version offset value small h =
      elim (Bool-cases (version == p.ipv4_frame_type)) [
        | inl four ↦
            let wrote =
              passed_lem (write8 buf (offset + 1) (set_dsclass_ipv4 value)) buf' (rw (four) at h) in
            let bytes = write8_lem buf buf' (offset + 1) (set_dsclass_ipv4 value) wrote in
            (ground (arith, bytes (offset + 1)), λ j below. ground (arith, bytes j))
        | inr other ↦ elim (Bool-cases (version == p.ipv6_frame_type)) [
          | inl six ↦
              let (a, b, first, second, rest) =
                write_ipv6_lem buf buf' offset value (rw (other, six) at h) in
              (
                rw (other, six, first, second) (ap done (get_dsclass_ipv6-set a b value small)),
                rest,
              )
          | inr neither ↦ cc
        ]
      ]

  same16 :
      (buf buf' : Buffer) (offset i : ℕ)
      → ((j : ℕ) → j < offset → read8 buf' j ≡ read8 buf j)
      → i + 1 < offset
      → read16 p buf' i ≡ read16 p buf i
  unfolding read16
  same16 buf buf' offset i h l = rw (h i (omega arith), h (i + 1) l) refl

  same_version :
      (garbage : ℕ) (buf buf' : Buffer) (version offset : ℕ)
      → ((j : ℕ) → j < offset → read8 buf' j ≡ read8 buf j)
      → get_ip_version_and_offset p garbage buf ≡ done (version, offset)
      → get_ip_version_and_offset p garbage buf' ≡ done (version, offset)
  unfolding get_ip_version_and_offset
  same_version garbage buf buf' version offset h e =
      ground (
        arith,
        same16 buf buf' offset 12 h,
        same16 buf buf' offset 16 h,
        same16 buf buf' offset 20 h,
      )

  -- On a tagged frame the version is written, whatever the variable held before.
  tagged_version :
      (garbage garbage' : ℕ) (buf : Buffer) (frame_type : ℕ)
      → read16 p buf 12 ≡ done frame_type
      → (p.ntohs frame_type ≡ 0x8100) ⊎ (p.ntohs frame_type ≡ 0x88a8)
      → get_ip_version_and_offset p garbage' buf ≡ get_ip_version_and_offset p garbage buf
  unfolding get_ip_version_and_offset
  tagged_version garbage garbage' buf frame_type at (inl single) = rw (at, single) refl
  tagged_version garbage garbage' buf frame_type at (inr double) = rw (at, double) refl

  -- On a frame with one of the two TPIDs of VLAN tags in its header, for a value of six bits: if
  -- xDSClassSet passes, ucDSClassGet returns the value from the buffer it leaves, whatever the
  -- variable for the IP version holds at the start of each of the two calls.
  pub ds_class_get-set :
      (garbage garbage' : ℕ) (buf buf' : Buffer) (frame_type value : ℕ)
      → value < 64
      → read16 p buf 12 ≡ done frame_type
      → (p.ntohs frame_type ≡ 0x8100) ⊎ (p.ntohs frame_type ≡ 0x88a8)
      → ds_class_set p garbage buf value ≡ done (buf', true)
      → ds_class_get p garbage' buf' ≡ done value
  unfolding ds_class_get ds_class_set
  ds_class_get-set garbage garbage' buf buf' frame_type value small tpid tagged h =
      let ((version, offset), at, h') =
        >>=-eq-done (get_ip_version_and_offset p garbage buf)
          (λ (version, offset). set_dsclass_at p buf version offset value) h in
      let at' = tagged_version garbage garbage' buf frame_type tpid tagged ∙ at in
      let (read, rest) = set_dsclass_at_lem buf buf' version offset value small h' in
      rw (same_version garbage' buf buf' version offset rest at') read
