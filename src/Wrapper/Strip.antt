-- ===== src/Wrapper/Strip.antt =====
-- Which bytes `prvStripVLANTag` of source/portable/NetworkInterface/Common/NetworkWrapper.c leaves
-- in a frame.
use free_rtos_tsn_compatibil.Prelude.{
  ℕ, zero, suc, ◌+◌, ◌-◌, ◌*◌, ◌^◌, ◌≤◌, ◌<◌, ◌≡◌, ◌≢◌, refl, ◌==◌, ltb, leb, ◌&&◌, if◌then◌else◌,
  none, some, List, get_elem?, set, get_elem?-set, get_elem?_of_lt, length-set, length, arith,
  Bool-cases, inl, inr,
}
use free_rtos_tsn_compatibil.State.{done, >>=-eq-done, u32}
use free_rtos_tsn_compatibil.Frame.{
  Platform, Buffer, frame_type_offset, size_of_eth_header, read8, read16,
}
use free_rtos_tsn_compatibil.DiffServ.{tpid_default, tpid_double_tag}
use free_rtos_tsn_compatibil.VlanTags.{number_of_tags}
use free_rtos_tsn_compatibil.Wrapper.{move_down, Stripped, remove_tags, read_tags, strip_vlan_tag}

-- The bytes after a move that stays inside of the list.
move_down_lem :
    (count dst distance : ℕ) (bytes : List ℕ)
    → dst + distance + count ≤ length bytes
    → (bytes' : List ℕ) × (move_down dst distance count bytes ≡ done bytes')
      × ((j : ℕ)
          → get_elem? bytes' j
            ≡ get_elem? bytes (if leb dst j && ltb j (dst + count) then j + distance else j))
unfolding move_down
move_down_lem zero dst distance bytes h = (bytes, refl, λ j. ground arith)
move_down_lem (suc count) dst distance bytes h =
    let (b, there) = get_elem?_of_lt bytes (dst + distance) (omega arith) in
    let (bytes', run, each) =
      move_down_lem count (dst + 1) distance (set bytes dst b)
        (omega (arith, h, length-set bytes dst b)) in
    (
      bytes',
      rw (there) run,
      λ j. ground (
        arith,
        each j,
        get_elem?-set bytes dst j b (omega arith),
        get_elem?-set bytes dst (j + distance) b (omega arith),
        there,
      ),
    )

remove_tags_lem :
    (buf : Buffer) (size : ℕ)
    → buf.data_length ≤ length buf.bytes
    → buf.data_length < 2 ^ 32
    → 12 + size ≤ buf.data_length
    → (buf' : Buffer) × (remove_tags buf size ≡ done buf')
      × (buf'.data_length + size ≡ buf.data_length)
      × ((j : ℕ)
          → j < buf'.data_length
          → get_elem? buf'.bytes j ≡ get_elem? buf.bytes (if ltb j 12 then j else j + size))
unfolding remove_tags
remove_tags_lem buf size inside small long =
    let count = u32 (buf.data_length + 2 ^ 32 - (size + 12)) in
    let counted : count ≡ buf.data_length - (size + 12) = omega arith in
    let length' = u32 (buf.data_length + 2 ^ 32 - size) in
    let shorter : length' ≡ buf.data_length - size = omega arith in
    let (bytes, moved, each) = move_down_lem count 12 size buf.bytes (omega arith) in
    (
      record { data_length = length'; bytes = bytes },
      rw (moved) refl,
      omega arith,
      λ j below. ground (arith, each j),
    )

module _ (p : Platform) where
  read16_lem :
      (buf : Buffer) (i : ℕ) → i + 1 < length buf.bytes → (v : ℕ) × (read16 p buf i ≡ done v)
  unfolding read16 read8
  read16_lem buf i h =
      let (a, first) = get_elem?_of_lt buf.bytes i (omega arith) in
      let (b, second) = get_elem?_of_lt buf.bytes (i + 1) h in
      (p.load16 a b, rw (first, second) refl)

  read_tags_lem :
      (buf : Buffer) (n : ℕ)
      → n ≢ 0
      → n < 3
      → 12 + 4 * n ≤ length buf.bytes
      → (stripped : Stripped) × (read_tags p buf n ≡ done stripped) × (stripped.num_tags ≡ n)
  unfolding read_tags
  read_tags_lem buf n some_tag few h =
      let (first, read_first) = read16_lem buf 14 (omega arith) in
      elim (Bool-cases (n == 1)) [
        | inl one ↦ (
          record { num_tags = n; tci = some first; service_tci = none },
          rw (one, read_first) refl,
          refl,
        )
        | inr two ↦
            let (second, read_second) = read16_lem buf 18 (grind arith) in
            (
              record { num_tags = n; tci = some second; service_tci = some first },
              rw (two, read_first, read_second) refl,
              refl,
            )
      ]

  number_of_tags_bound : (buf : Buffer) (n : ℕ) → number_of_tags p buf ≡ done n → n < 3
  unfolding number_of_tags
  number_of_tags_bound buf n h = elim (Bool-cases (ltb buf.data_length size_of_eth_header)) [
    | inl short ↦ let zero_tags : done 0 ≡ done n = rw (short) at h in grind arith
    | inr long ↦
        let (frame_type, read, e) =
          >>=-eq-done (read16 p buf frame_type_offset)
            (λ frame_type. done (
              if p.ntohs frame_type == tpid_double_tag
              then 1
              else if p.ntohs frame_type == tpid_default
              then 2
              else 0))
            (rw (long) at h) in
        ground arith
  ]

  -- For a frame that lies in its buffer, with a length that fits a size_t, in which
  -- ucGetNumberOfTags finds n tags, and which is long enough for them, prvStripVLANTag ends
  -- without a fault, returns n, takes 4 * n from the length, and leaves the addresses in place,
  -- followed by the bytes from 4 * n behind them on.
  pub strip_vlan_tag_lem :
      (buf : Buffer) (n : ℕ)
      → number_of_tags p buf ≡ done n
      → buf.data_length ≤ length buf.bytes
      → buf.data_length < 2 ^ 32
      → 12 + 4 * n ≤ buf.data_length
      → (buf' : Buffer) × (stripped : Stripped) × (strip_vlan_tag p buf ≡ done (buf', stripped))
        × (stripped.num_tags ≡ n)
        × (buf'.data_length + 4 * n ≡ buf.data_length)
        × ((j : ℕ)
            → j < buf'.data_length
            → get_elem? buf'.bytes j ≡ get_elem? buf.bytes (if ltb j 12 then j else j + 4 * n))
  unfolding strip_vlan_tag
  strip_vlan_tag_lem buf n counted inside small long = elim (Bool-cases (n == 0)) [
    | inl untagged ↦ (
      buf,
      record { num_tags = 0; tci = none; service_tci = none },
      rw (counted, untagged) refl,
      grind arith,
      grind arith,
      λ j below. ground arith,
    )
    | inr tagged ↦
        let (stripped, read, number) =
          read_tags_lem buf n (grind arith) (number_of_tags_bound buf n counted) (omega arith) in
        let (buf', removed, length', each) =
          remove_tags_lem buf (n * 4) inside small (omega arith) in
        (
          buf',
          stripped,
          rw (counted, tagged, read, removed) refl,
          number,
          omega arith,
          λ j below. ground (arith, each j),
        )
  ]
