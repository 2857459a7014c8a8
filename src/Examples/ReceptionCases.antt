-- ===== src/Examples/ReceptionCases.antt =====
-- Frames that arrive for a TSN socket, at concrete inputs.
use free_rtos_tsn_compatibil.Prelude.{
  ℕ, ◌+◌, ◌*◌, ◌<◌, ◌≡◌, refl, true, false, ◌==◌, if◌then◌else◌, Bool, Option, none, some, List, [],
  ◌∷◌, ◌++◌, get_elem?, arith,
}
use free_rtos_tsn_compatibil.Kernel.{Item, network_rx}
use free_rtos_tsn_compatibil.State.{done, update}
use free_rtos_tsn_compatibil.Frame.{Buffer, read16, read8}
use free_rtos_tsn_compatibil.VlanTags.{number_of_tags}
use free_rtos_tsn_compatibil.Timebase.Handle.{initial, set_all, timebase_handle_set}
use free_rtos_tsn_compatibil.Timestamp.{IsTimespec, load_timestamping}
use free_rtos_tsn_compatibil.Memory.{Memory, Msghdr, cleared}
use free_rtos_tsn_compatibil.Ancillary.{ControlMessage}
use free_rtos_tsn_compatibil.World.{NetworkBuffer, TsnSocket, World}
use free_rtos_tsn_compatibil.Sockets.{find_socket}
use free_rtos_tsn_compatibil.Controller.{Stack, deliver_frame}
use free_rtos_tsn_compatibil.Wrapper.Control.{control_fill_for_rx}
use free_rtos_tsn_compatibil.Wrapper.Control.Report.{stamp, Reports, control_fill_for_rx-read}
use free_rtos_tsn_compatibil.Wrapper.Receive.{
  Granted, Surroundings, handle_receive, send_event_to_controller,
}
use free_rtos_tsn_compatibil.Wrapper.Receive.Frames.{Fields, header_of, Arrived, Untagged}
use free_rtos_tsn_compatibil.Wrapper.Receive.Built.{Carries}
use free_rtos_tsn_compatibil.Wrapper.Receive.Accepted.{Listens, IsGranted, rx_item, filed}
use free_rtos_tsn_compatibil.Wrapper.Receive.Delivered.{Delivered, handle_receive-Delivered}
use free_rtos_tsn_compatibil.Wrapper.Receive.Miscounted.{SingleTagged, handle_receive-SingleTagged}
use free_rtos_tsn_compatibil.Wrapper.Receive.Event.{Inserts, send_event_lem}
use free_rtos_tsn_compatibil.Examples.Bounded.{bounded_kernel}
use free_rtos_tsn_compatibil.Examples.Pointers.{pointers}
use free_rtos_tsn_compatibil.Examples.Network.{pass_all, urgent, normal, net, config}
use free_rtos_tsn_compatibil.Examples.FrameCases.{little_endian}
use free_rtos_tsn_compatibil.Examples.TimebaseCases.{attempts, attempts_enable}
use free_rtos_tsn_compatibil.Examples.SocketCases.{
  memory, blank, opened, first, world, layout, answers,
}

-- UDP over IPv4 from the port 0x5100 to the port 0x5000, with two bytes.
abbrev addresses : List ℕ
addresses = 2 ∷ 0 ∷ 0 ∷ 0 ∷ 0 ∷ 1 ∷ 2 ∷ 0 ∷ 0 ∷ 0 ∷ 0 ∷ 2 ∷ []

abbrev datagram : List ℕ
datagram =
    8 ∷ 0 ∷ 0x45 ∷ 0 ∷ 0 ∷ 30 ∷ 0 ∷ 0 ∷ 0 ∷ 0 ∷ 128 ∷ 17 ∷ 0 ∷ 0 ∷ 10 ∷ 0 ∷ 0 ∷ 1 ∷ 10 ∷ 0 ∷ 0 ∷ 2
    ∷ 0 ∷ 0x51 ∷ 0 ∷ 0x50 ∷ 0 ∷ 10 ∷ 0 ∷ 0 ∷ 7 ∷ 9 ∷ []

abbrev untagged_frame : List ℕ
untagged_frame = addresses ++ datagram

-- The same behind a tag with the VID 7.
abbrev tagged_frame : List ℕ
tagged_frame = addresses ++ (0x81 ∷ 0 ∷ 0 ∷ 7 ∷ datagram)

abbrev pub fields : Fields
fields = record {
  type0 = 8;
  type1 = 0;
  address0 = 10;
  address1 = 0;
  address2 = 0;
  address3 = 2;
  source0 = 0;
  source1 = 0x51;
  destination0 = 0;
  destination1 = 0x50;
}

abbrev pub descriptor : NetworkBuffer
descriptor = record (answers.descriptor) { data_length = 44; interface = 90; end_point = 71 }

abbrev pub stamped : TsnSocket pointers
stamped = record first { ts_flags = 10 }

abbrev pub arrival : World bounded_kernel pointers
arrival = record world {
  memory = record memory { bytes = λ a. if a == 31 then some untagged_frame else none };
  buffers = λ b. if b == 30 then some descriptor else none;
  sockets = λ q. if q == 3 then some stamped else none;
}

abbrev pub surroundings : Surroundings
surroundings = record {
  layout = layout;
  load128 = λ bytes. 0;
  af_inet = 2;
  af_inet6 = 10;
  lookup = λ port. 0;
  timebase = set_all initial attempts;
  time_of = λ f. record { tv_sec = 5; tv_nsec = f };
}

abbrev pub granted : Granted
granted = record {
  message = 6;
  name = 7;
  iov = 8;
  control = 40;
  control_bytes = blank 36;
  item = 50;
}

arrival-Arrived :
    Arrived little_endian surroundings bounded_kernel pointers arrival 30 descriptor untagged_frame
      0 fields
unfolding number_of_tags read16 read8
arrival-Arrived = record {
  there = refl;
  held = refl;
  counted = refl;
  inside = omega arith;
  small = omega arith;
  long = omega arith;
  datagram = record {
    at_type0 = refl;
    at_type1 = refl;
    is_ipv4 = refl;
    at_protocol = refl;
    at_address0 = refl;
    at_address1 = refl;
    at_address2 = refl;
    at_address3 = refl;
    at_source0 = refl;
    at_source1 = refl;
    at_destination0 = refl;
    at_destination1 = refl;
  };
}

arrival-Listens : Listens bounded_kernel pointers arrival 0x5000 8 3 stamped
unfolding find_socket
arrival-Listens = record {
  listed = 3 ∷ [];
  bound = refl;
  found = refl;
  not_null = omega arith;
  allocated = refl;
}

granted-IsGranted : IsGranted granted 31
granted-IsGranted = record {
  message = omega arith;
  iov = omega arith;
  item = omega arith;
  room = refl;
  control_apart = omega arith;
  name_apart = omega arith;
}

pub got_time : IsTimespec (surroundings.time_of (set_all initial attempts).handle.fn_get_time)
unfolding set_all
got_time = unfold initial timebase_handle_set in (omega arith, omega arith)

-- The timestamp entry is read back for a message at 5.
control_fill_for_rx-read_example :
    (m : Memory) × (entry : ControlMessage) × (control_fill_for_rx little_endian bounded_kernel
        pointers surroundings.time_of
        (set_all initial attempts)
        40
        (blank 36)
        arrival
        5
        3
      ≡ done (m, 1))
    × Reports little_endian m 5 40 0 cleared (entry ∷ [])
    × (entry.level ≡ 1)
    × (entry.kind ≡ 37)
    × (load_timestamping little_endian entry.payload
        ≡ done (stamp (surroundings.time_of (set_all initial attempts).handle.fn_get_time)))
control_fill_for_rx-read_example =
    control_fill_for_rx-read little_endian bounded_kernel pointers surroundings.time_of attempts 40
      (blank 36) arrival 5 3 cleared stamped (omega arith) (omega arith) (omega arith) refl refl
      refl attempts_enable got_time refl

abbrev stack : Stack
stack = record {
  lookup = λ port. 0;
  ip_task_takes = λ b. true;
  process = λ b. true;
  interface_of = λ end_point. 90;
}

handle_receive-Delivered_example :
    (w' : World bounded_kernel pointers) × (items' : ℕ → Option Item) × (w'' : World bounded_kernel
      pointers)
    × (frame : Buffer) × (sender : List ℕ) × (handle_receive little_endian surroundings
          bounded_kernel pointers granted arrival
          (λ a. none)
          30
        ≡ done (w', items', 50))
    × (items' 50 ≡ some (rx_item 30 6))
    × (deliver_frame bounded_kernel pointers little_endian stack
          (record w' { net = net })
          (rx_item 30 6)
          false
        ≡ done w'')
    × Untagged little_endian surroundings bounded_kernel pointers frame descriptor untagged_frame 0
        fields
    × Delivered bounded_kernel pointers stack little_endian granted
        (record arrival { memory = w'.memory; net = net })
        w''
        30
        8
        opened
        (filed little_endian surroundings bounded_kernel pointers descriptor frame fields)
        sender
    × Carries little_endian surroundings granted w''.memory
        (filed little_endian surroundings bounded_kernel pointers descriptor frame fields)
        (header_of little_endian fields)
        0x5000
    × (w''.memory.bytes 31 ≡ some frame.bytes)
    × ((j : ℕ) → j < 4 → get_elem? sender j ≡ get_elem? untagged_frame (26 + j + 4 * 0))
handle_receive-Delivered_example =
    handle_receive-Delivered bounded_kernel pointers stack little_endian surroundings attempts
      granted arrival (λ a. none) 30 descriptor untagged_frame 0 fields 8 3 stamped opened net false
      refl arrival-Arrived (omega arith) arrival-Listens granted-IsGranted (omega arith)
      (omega arith) (omega arith) refl

send_event_lem_example :
    (w' : World bounded_kernel pointers) × (items' : ℕ → Option Item) × (ok : Bool)
    × (send_event_to_controller little_endian surroundings bounded_kernel pointers config granted
          true arrival
          (λ a. none)
          network_rx
          30
          10
        ≡ done (w', items', ok))
    × Inserts little_endian surroundings bounded_kernel pointers config net (rx_item 30 6) w'.net ok
    × (items' 50 ≡ some (rx_item 30 6))
    × ((h : Msghdr) × (w'.memory.messages 6 ≡ some h))
    × (w'.effects ≡ [])
send_event_lem_example =
    send_event_lem little_endian surroundings bounded_kernel pointers config attempts granted true
      arrival (λ a. none) 30 10 descriptor untagged_frame 0 fields 8 3 stamped refl arrival-Arrived
      (omega arith) arrival-Listens granted-IsGranted
      ((urgent, refl, (pass_all, refl)), ((normal, refl, (pass_all, refl)), tt))

abbrev tagged_descriptor : NetworkBuffer
tagged_descriptor = record descriptor { data_length = 48 }

abbrev tagged_arrival : World bounded_kernel pointers
tagged_arrival = record arrival {
  memory = record memory { bytes = λ a. if a == 31 then some tagged_frame else none };
  buffers = λ b. if b == 30 then some tagged_descriptor else none;
}

tagged-SingleTagged :
    SingleTagged little_endian bounded_kernel pointers tagged_arrival 30 tagged_descriptor
      tagged_frame 0 30
tagged-SingleTagged = record {
  there = refl;
  held = refl;
  tpid0 = 0x81;
  tpid1 = 0;
  at_tpid0 = refl;
  at_tpid1 = refl;
  tagged = refl;
  at_low = refl;
  at_high = refl;
  inside = omega arith;
  small = omega arith;
  long = omega arith;
}

handle_receive-SingleTagged_example :
    (w' : World bounded_kernel pointers) × (frame : Buffer) × (handle_receive little_endian
        surroundings bounded_kernel pointers granted tagged_arrival
        (λ a. none)
        30
      ≡ done (w', update (λ a. none) 50 (rx_item 30 0), 50))
    × (w'.buffers 30
        ≡ some (record tagged_descriptor {
          data_length = frame.data_length;
          bound_port = 0;
          port = 0;
        }))
    × (w'.memory.bytes 31 ≡ some frame.bytes)
    × (frame.data_length + 8 ≡ 48)
    × (get_elem? frame.bytes 12 ≡ some 0)
    × (get_elem? frame.bytes 13 ≡ some 30)
handle_receive-SingleTagged_example =
    handle_receive-SingleTagged little_endian surroundings bounded_kernel pointers granted
      tagged_arrival (λ a. none) 30 tagged_descriptor tagged_frame 0 30 tagged-SingleTagged
      (λ h. omega arith) (λ h. omega arith) (omega arith)
