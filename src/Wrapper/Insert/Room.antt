-- ===== src/Wrapper/Insert/Room.antt =====
-- The memory that prvInsertVLANTag (source/portable/NetworkInterface/Common/NetworkWrapper.c)
-- needs where the network buffer is resized in place.
use native.Mathlib.Decide.{dec_lt}
use free_rtos_tsn_compatibil.Prelude.{
  ℕ, ◌+◌, ◌-◌, ◌^◌, ◌≤◌, ◌<◌, ◌≡◌, refl, ap, ◌∙◌, ◌⊎◌, inl, inr, true, some, List, [], ◌∷◌, ◌++◌,
  length, length-append, length-set, get_elem?, set, Option-cases, lt_of_get_elem?, arith,
}
use free_rtos_tsn_compatibil.State.{done, fault, u32}
use free_rtos_tsn_compatibil.Bytes.{copy_in, copy_out}
use free_rtos_tsn_compatibil.Bytes.Copy.{copy_out_at, split_at}
use free_rtos_tsn_compatibil.Frame.{Platform, Buffer}
use free_rtos_tsn_compatibil.Wrapper.Insert.{insert_vlan_tag, tag, insert_vlan_tag_lem}

-- A copy that starts inside of the array, or at its end, and goes on behind its end is a fault.
copy_in_beyond :
    (at : ℕ) (source bytes : List ℕ)
    → at ≤ length bytes
    → length bytes < at + length source
    → copy_in at source bytes ≡ fault
unfolding copy_in
copy_in_beyond at [] bytes inside long = absurd (omega arith)
copy_in_beyond at (b ∷ source) bytes inside long = elim (Option-cases (get_elem? bytes at)) [
  | inl outside ↦ rw (outside) refl
  | inr (old, there) ↦
      let same = length-set bytes at b in
      let before = lt_of_get_elem? bytes at there in
      rw (there) (copy_in_beyond (at + 1) source (set bytes at b) (omega arith) (omega arith))
]

-- The memory has the addresses, `n` bytes of the frame, eight bytes behind it, and the rest.
pub record Parts (memory : List ℕ) (n : ℕ) : Type 0 where
  pub addresses : List ℕ
  pub frame : List ℕ
  pub next : List ℕ
  pub over : List ℕ
  pub rest : List ℕ
  pub whole : memory ≡ addresses ++ (frame ++ (next ++ (over ++ rest)))
  pub length_addresses : length addresses ≡ 12
  pub length_frame : length frame ≡ n
  pub length_next : length next ≡ 4
  pub length_over : length over ≡ 4

split_more :
    (n m : ℕ) (bytes : List ℕ)
    → n + m ≤ length bytes
    → (a : List ℕ) × (b : List ℕ) × (bytes ≡ a ++ b) × (length a ≡ n) × (m ≤ length b)
split_more n m bytes h =
    let (a, b, e, l) = split_at n bytes (omega arith) in
    (a, b, e, l, omega (arith, ap length e ∙ length-append a b))

joined :
    (m a b c d f g h i : List ℕ)
    → m ≡ a ++ b
    → b ≡ c ++ d
    → d ≡ f ++ g
    → g ≡ h ++ i
    → m ≡ a ++ (c ++ (f ++ (h ++ i)))
joined m a b c d f g h i e1 e2 e3 e4 = rw (e1, e2, e3, e4) refl

parts : (memory : List ℕ) (n : ℕ) → 20 + n ≤ length memory → Parts memory n
parts memory n long =
    let (addresses, behind, e1, l1, m1) = split_more 12 (n + 8) memory (omega arith) in
    let (frame, behind2, e2, l2, m2) = split_more n 8 behind m1 in
    let (next, behind3, e3, l3, m3) = split_more 4 4 behind2 m2 in
    let (over, rest, e4, l4) = split_at 4 behind3 m3 in
    record {
      addresses = addresses;
      frame = frame;
      next = next;
      over = over;
      rest = rest;
      whole = joined memory addresses behind frame behind2 next behind3 over rest e1 e2 e3 e4;
      length_addresses = l1;
      length_frame = l2;
      length_next = l3;
      length_over = l4;
    }

module _ (p : Platform) where
  beyond_run :
      (buf : Buffer) (old_length : ℕ) (memory tail : List ℕ) (tci tpid size count : ℕ)
      → u32 (buf.data_length + 4) ≡ size
      → u32 (size + 2 ^ 32 - 12) ≡ count
      → copy_out 12 count memory ≡ done tail
      → copy_in 16 tail memory ≡ fault
      → insert_vlan_tag p buf
          (some (record { is_same = true; old_length = old_length; memory = memory }))
          tci
          tpid
        ≡ fault
  unfolding insert_vlan_tag
  beyond_run buf old_length memory tail tci tpid size count s c out beyond =
      rw (s, c, out, beyond) refl

  fits_run :
      (buf : Buffer) (old_length n : ℕ) (memory : List ℕ) (tci tpid : ℕ) (x : Parts memory n)
      → buf.data_length ≡ 12 + n
      → 16 + n < 2 ^ 32
      → insert_vlan_tag p buf
          (some (record { is_same = true; old_length = old_length; memory = memory }))
          tci
          tpid
        ≡ done (
            some (record {
              data_length = 16 + n;
              bytes = x.addresses ++ (tag p tci tpid ++ (x.frame ++ (x.next ++ x.rest)));
            }))
  fits_run buf old_length n memory tci tpid x size small =
      let l = x.length_frame in
      ap
        (λ m.
          insert_vlan_tag p buf
            (some (record { is_same = true; old_length = old_length; memory = m })) tci tpid)
        x.whole
      ∙ insert_vlan_tag_lem p buf old_length x.addresses x.frame x.next x.over x.rest tci tpid
          x.length_addresses x.length_next x.length_over (omega arith) (omega arith)
      ∙ ap
          (λ m. done (
            some (record {
              data_length = 16 + m;
              bytes = x.addresses ++ (tag p tci tpid ++ (x.frame ++ (x.next ++ x.rest)));
            })))
          l

  -- Where pxResizeNetworkBufferWithDescriptor returns the same descriptor with at least the memory
  -- that was asked for, which is four bytes more than the frame: with fewer than eight bytes more,
  -- prvInsertVLANTag moves bytes behind the end of the memory, a fault. With eight or more it ends
  -- with the tag behind the addresses and all of the frame behind the tag; of the eight bytes
  -- behind the frame, the first four have moved over the others.
  pub insert_vlan_tag_cases :
      (buf : Buffer) (old_length n : ℕ) (memory : List ℕ) (tci tpid : ℕ)
      → buf.data_length ≡ 12 + n
      → 16 + n < 2 ^ 32
      → 16 + n ≤ length memory
      → ((length memory < 20 + n)
          × (insert_vlan_tag p buf
                (some (record { is_same = true; old_length = old_length; memory = memory }))
                tci
                tpid
              ≡ fault))
        ⊎ ((20 + n ≤ length memory)
            × ((x : Parts memory n) × (insert_vlan_tag p buf
                    (some (record { is_same = true; old_length = old_length; memory = memory }))
                    tci
                    tpid
                  ≡ done (
                      some (record {
                        data_length = 16 + n;
                        bytes = x.addresses ++ (tag p tci tpid ++ (x.frame ++ (x.next ++ x.rest)));
                      })))))
  insert_vlan_tag_cases buf old_length n memory tci tpid size small asked =
      elim (dec_lt (length memory) (20 + n)) [
        | yes short ↦
            let (addresses, behind, e1, l1, m1) = split_more 12 (n + 4) memory (omega arith) in
            let (tail, rest, e2, l2) = split_at (n + 4) behind m1 in
            let whole : memory ≡ addresses ++ (tail ++ rest) = e1 ∙ ap (λ l. addresses ++ l) e2 in
            inl (
              short,
              beyond_run buf old_length memory tail tci tpid (16 + n) (n + 4) (omega arith)
                  (omega arith)
                  (ap (copy_out 12 (n + 4)) whole
                    ∙ copy_out_at 12 (n + 4) addresses tail rest l1 l2)
                  (copy_in_beyond 16 tail memory (omega arith) (omega arith)),
            )
        | no long ↦
            let x = parts memory n (omega arith) in
            inr (omega arith, (x, fits_run buf old_length n memory tci tpid x size small))
      ]
