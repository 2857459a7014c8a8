-- ===== src/Examples/OutputCases.antt =====
-- The output of packets at concrete inputs.
use free_rtos_tsn_compatibil.Prelude.{
  ◌⊎◌, ℕ, ◌≡◌, refl, true, ◌==◌, if◌then◌else◌, Option, none, some, List, [], ◌∷◌, ◌++◌, ◌+◌, ◌<◌,
  ◌≤◌, arith,
}
use free_rtos_tsn_compatibil.State.{done, fault}
use free_rtos_tsn_compatibil.Memory.{Memory}
use free_rtos_tsn_compatibil.World.{NetworkBuffer, World}
use free_rtos_tsn_compatibil.Wrapper.Control.{ExtendedErr}
use free_rtos_tsn_compatibil.Wrapper.Receive.{Granted}
use free_rtos_tsn_compatibil.Wrapper.Insert.{tag, insert_vlan_tag}
use free_rtos_tsn_compatibil.Wrapper.Insert.Room.{Parts, insert_vlan_tag_cases}
use free_rtos_tsn_compatibil.Wrapper.Output.{InterfaceConfig, ResizeAnswer, MacAnswer, insert_tags}
use free_rtos_tsn_compatibil.Wrapper.Output.Tagged.{insert_tags_lem}
use free_rtos_tsn_compatibil.Examples.Bounded.{bounded_kernel}
use free_rtos_tsn_compatibil.Examples.Pointers.{pointers}
use free_rtos_tsn_compatibil.Examples.FrameCases.{little_endian}
use free_rtos_tsn_compatibil.Examples.SocketCases.{blank, world, answers}
use free_rtos_tsn_compatibil.Examples.ReceptionCases.{surroundings, stamped, granted}

-- The interface 90 has no tags.
abbrev pub plain : InterfaceConfig
plain = record { emac_index = 0; num_tags = 0; vlan_tag = 0; service_vlan_tag = 0 }

abbrev configs : ℕ → Option InterfaceConfig
configs interface = if interface == 90 then some plain else none

abbrev sent_buffer : NetworkBuffer
sent_buffer = record (answers.descriptor) { bound_port = 0x5000 }

abbrev departure : World bounded_kernel pointers
departure = record world {
  buffers = λ b. if b == 30 then some sent_buffer else none;
  sockets = λ q. if q == 3 then some stamped else none;
}

-- The driver sends, and leaves the descriptor.
abbrev kept : MacAnswer
kept = record { sent = true; buffers = departure.buffers }

abbrev for_report : Granted
for_report = record granted { control_bytes = blank 64 }

abbrev unwritten : ExtendedErr
unwritten = record {
  ee_errno = 0;
  ee_origin = 0;
  ee_type = 1;
  ee_code = 2;
  ee_pad = 3;
  ee_info = 0;
  ee_data = 0;
}

-- Two tags go into a frame with three bytes behind its addresses, which is resized twice in place.
abbrev two_tags : InterfaceConfig
two_tags = record plain { num_tags = 2; vlan_tag = 0xa007; service_vlan_tag = 0x6009 }

abbrev addresses : List ℕ
addresses = 2 ∷ 0 ∷ 0 ∷ 0 ∷ 0 ∷ 1 ∷ 2 ∷ 0 ∷ 0 ∷ 0 ∷ 0 ∷ 2 ∷ []

abbrev short : List ℕ
short = 8 ∷ 0 ∷ 7 ∷ []

abbrev short_buffer : NetworkBuffer
short_buffer = record sent_buffer { data_length = 15 }

abbrev short_world : World bounded_kernel pointers
short_world = record departure { buffers = λ b. if b == 30 then some short_buffer else none }

abbrev inner : List ℕ
inner = tag little_endian 0xa007 0x8100 ++ short

abbrev first_answer : ResizeAnswer
first_answer = record {
  descriptor = 30;
  buffers = short_world.buffers;
  memory = addresses ++ (short ++ (blank 4 ++ (blank 4 ++ [])));
}

abbrev second_answer : ResizeAnswer
second_answer = record {
  descriptor = 30;
  buffers = short_world.buffers;
  memory = addresses ++ (inner ++ (blank 4 ++ (blank 4 ++ [])));
}

insert_tags_lem_example :
    (w' : World bounded_kernel pointers) × (insert_tags little_endian surroundings bounded_kernel
        pointers short_world 30 two_tags
        (some first_answer)
        (some second_answer)
      ≡ done (w', true))
    × (w'.buffers 30 ≡ some (record short_buffer { data_length = 23 }))
    × (w'.memory.bytes 31
        ≡ some (addresses ++ (tag little_endian 0x6009 0x88a8 ++ (inner ++ (blank 4 ++ [])))))
insert_tags_lem_example =
    insert_tags_lem little_endian surroundings bounded_kernel pointers short_world 30 two_tags
      first_answer second_answer short_buffer short_buffer short_buffer addresses short (blank 4) []
      (blank 4) [] (omega arith) (omega arith) refl
      (record {
        same = refl;
        there = refl;
        over = blank 4;
        holds = refl;
        length_addresses = refl;
        length_next = refl;
        length_over = refl;
        sized = refl;
        small = omega arith;
      })
      (record {
        same = refl;
        there = refl;
        over = blank 4;
        holds = refl;
        length_addresses = refl;
        length_next = refl;
        length_over = refl;
        sized = refl;
        small = omega arith;
      })

insert_vlan_tag_cases_example :
    ((19 < 20 + 3)
      × (insert_vlan_tag little_endian
            (record { data_length = 15; bytes = [] })
            (some (record {
              is_same = true;
              old_length = 15;
              memory = addresses ++ (short ++ blank 4);
            }))
            7
            0x8100
          ≡ fault))
    ⊎ ((20 + 3 ≤ 19)
        × ((x : Parts (addresses ++ (short ++ blank 4)) 3) × (insert_vlan_tag little_endian
                (record { data_length = 15; bytes = [] })
                (some (record {
                  is_same = true;
                  old_length = 15;
                  memory = addresses ++ (short ++ blank 4);
                }))
                7
                0x8100
              ≡ done (
                  some (record {
                    data_length = 19;
                    bytes =
                        x.addresses
                        ++ (tag little_endian 7 0x8100 ++ (x.frame ++ (x.next ++ x.rest)));
                  })))))
insert_vlan_tag_cases_example =
    insert_vlan_tag_cases little_endian (record { data_length = 15; bytes = [] }) 15 3
      (addresses ++ (short ++ blank 4)) 7 0x8100 refl (omega arith) (omega arith)
