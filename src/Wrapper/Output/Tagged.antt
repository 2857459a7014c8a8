-- ===== src/Wrapper/Output/Tagged.antt =====
-- The tags that the output of a packet puts into its frame
-- (source/portable/NetworkInterface/Common/NetworkWrapper.c).
use free_rtos_tsn_compatibil.Prelude.{
  ℕ, ◌+◌, ◌^◌, ◌≤◌, ◌<◌, ◌≡◌, ◌≢◌, refl, ap, ==-of-≢, ==-same, leb, true, Option, some, List, [],
  ◌++◌, length, arith,
}
use free_rtos_tsn_compatibil.Kernel.{Kernel, PointerQueues}
use free_rtos_tsn_compatibil.State.{done, update}
use free_rtos_tsn_compatibil.Frame.{Platform, Buffer}
use free_rtos_tsn_compatibil.World.{NetworkBuffer, World}
use free_rtos_tsn_compatibil.Wrapper.Insert.{insert_vlan_tag, tag, insert_vlan_tag_lem}
use free_rtos_tsn_compatibil.Wrapper.Receive.{Surroundings}
use free_rtos_tsn_compatibil.Wrapper.Output.{
  InterfaceConfig, ResizeAnswer, insert_in_place, insert_tags,
}

module _ (p : Platform) (s : Surroundings) (k : Kernel) (e : PointerQueues) where
  -- The descriptor is resized in place: it has this memory then, with the frame as it was behind
  -- its addresses, and at least eight bytes more, four of them more than was asked for.
  pub record InPlace (r : ResizeAnswer) (b : ℕ) (buf new : NetworkBuffer)
      (addresses frame next rest : List ℕ) : Type 0 where
    pub same : r.descriptor ≡ b
    pub there : r.buffers b ≡ some new
    pub over : List ℕ
    pub holds : r.memory ≡ addresses ++ (frame ++ (next ++ (over ++ rest)))
    pub length_addresses : length addresses ≡ 12
    pub length_next : length next ≡ 4
    pub length_over : length over ≡ 4
    pub sized : buf.data_length ≡ 12 + length frame
    pub small : 16 + length frame < 2 ^ 32

  -- The state with a tag in the frame.
  abbrev pub with_tag :
      World k e → ResizeAnswer → ℕ → NetworkBuffer → List ℕ → List ℕ → ℕ → World k e
  with_tag w r b new bytes frame tags = record w {
    buffers = update r.buffers b (record new { data_length = 12 + tags + length frame });
    memory = record w.memory { bytes = update w.memory.bytes new.ethernet bytes };
  }

  in_place_run :
      (w : World k e) (b : ℕ) (r : ResizeAnswer) (tci tpid : ℕ) (buf new : NetworkBuffer)
      (frame' : Buffer) (memory : List ℕ)
      → w.buffers b ≡ some buf
      → r.descriptor ≡ b
      → r.buffers b ≡ some new
      → r.memory ≡ memory
      → insert_vlan_tag p
          (record { data_length = buf.data_length; bytes = [] })
          (some (record { is_same = true; old_length = new.data_length; memory = memory }))
          tci
          tpid
        ≡ done (some frame')
      → insert_in_place p s k e w b (some r) tci tpid
        ≡ done (
          record w {
            buffers = update r.buffers b (record new { data_length = frame'.data_length });
            memory = record w.memory { bytes = update w.memory.bytes new.ethernet frame'.bytes };
          },
          b,
        )
  unfolding insert_in_place
  in_place_run w b r tci tpid buf new frame' memory there same resized holds inserted =
      rw (there, same, ==-same b, resized, holds, inserted) refl

  pub insert_in_place_lem :
      (w : World k e) (b : ℕ) (r : ResizeAnswer) (tci tpid : ℕ) (buf new : NetworkBuffer)
      (addresses frame next rest : List ℕ)
      → w.buffers b ≡ some buf
      → InPlace r b buf new addresses frame next rest
      → insert_in_place p s k e w b (some r) tci tpid
        ≡ done (
          with_tag w r b new (addresses ++ (tag p tci tpid ++ (frame ++ (next ++ rest)))) frame 4,
          b,
        )
  insert_in_place_lem w b r tci tpid buf new addresses frame next rest there x =
      in_place_run w b r tci tpid buf new _ _ there x.same x.there x.holds (
        insert_vlan_tag_lem p (record { data_length = buf.data_length; bytes = [] }) new.data_length
          addresses frame next x.over rest tci tpid x.length_addresses x.length_next x.length_over
          x.sized x.small)

  two_run :
      (w w1 w2 : World k e) (b : ℕ) (config : InterfaceConfig) (first second : Option ResizeAnswer)
      → b ≢ 0
      → 2 ≤ config.num_tags
      → insert_in_place p s k e w b first config.vlan_tag 0x8100 ≡ done (w1, b)
      → insert_in_place p s k e w1 b second config.service_vlan_tag 0x88a8 ≡ done (w2, b)
      → insert_tags p s k e w b config first second ≡ done (w2, true)
  unfolding insert_tags
  two_run w w1 w2 b config first second nb two run1 run2 =
      let one : leb 1 config.num_tags ≡ true = ground arith in
      let both : leb 2 config.num_tags ≡ true = ground arith in
      rw (one, run1, ==-of-≢ b 0 nb, both, run2, ==-of-≢ b 0 nb) refl

  -- For an interface with two tags or more, where both times the descriptor is resized in place,
  -- to memory with eight bytes behind the frame although four were asked for, the second time with
  -- the frame that the first insertion left, up to its new length: the tags are inserted without a
  -- fault, and the packet goes on to be sent. Behind the addresses stand the service tag, with the
  -- TPID 0x88a8, the tag with the TPID 0x8100, and the frame as it was; the length has grown by 8.
  pub insert_tags_lem :
      (w : World k e) (b : ℕ) (config : InterfaceConfig) (r1 r2 : ResizeAnswer)
      (buf new1 new2 : NetworkBuffer) (addresses frame next1 rest1 next2 rest2 : List ℕ)
      → b ≢ 0
      → 2 ≤ config.num_tags
      → w.buffers b ≡ some buf
      → InPlace r1 b buf new1 addresses frame next1 rest1
      → InPlace r2 b
          (record new1 { data_length = 16 + length frame })
          new2
          addresses
          (tag p config.vlan_tag 0x8100 ++ frame)
          next2
          rest2
      → (w' : World k e) × (insert_tags p s k e w b config (some r1) (some r2) ≡ done (w', true))
        × (w'.buffers b ≡ some (record new2 { data_length = 20 + length frame }))
        × (w'.memory.bytes new2.ethernet
            ≡ some (
                addresses
                ++ (tag p config.service_vlan_tag 0x88a8
                    ++ ((tag p config.vlan_tag 0x8100 ++ frame) ++ (next2 ++ rest2)))))
  insert_tags_lem w b config r1 r2 buf new1 new2 addresses frame next1 rest1 next2 rest2 nb two
        there x y =
      let bytes1 = addresses ++ (tag p config.vlan_tag 0x8100 ++ (frame ++ (next1 ++ rest1))) in
      let w1 = with_tag w r1 b new1 bytes1 frame 4 in
      let buf1 = record new1 { data_length = 16 + length frame } in
      let frame1 = tag p config.vlan_tag 0x8100 ++ frame in
      let there1 : w1.buffers b ≡ some buf1 = rw (==-same b) refl in
      let bytes2 =
        addresses ++ (tag p config.service_vlan_tag 0x88a8 ++ (frame1 ++ (next2 ++ rest2))) in
      let w2 = with_tag w1 r2 b new2 bytes2 frame1 4 in
      let longer : 16 + length frame1 ≡ 20 + length frame = omega arith in
      (
        w2,
        two_run w w1 w2 b config (some r1) (some r2) nb two
            (insert_in_place_lem w b r1 config.vlan_tag 0x8100 buf new1 addresses frame next1 rest1
              there x)
            (insert_in_place_lem w1 b r2 config.service_vlan_tag 0x88a8 buf1 new2 addresses frame1
              next2 rest2 there1 y),
        rw (==-same b) (ap (λ n. some (record new2 { data_length = n })) longer),
        rw (==-same new2.ethernet) refl,
      )
