-- ===== src/Examples/ControllerCases.antt =====
-- The task of the controller at concrete inputs.
use mathlib.Core.Path.{subst}
use mathlib.Core.List.{Mem, mem-cons_self, mem-cons_of_mem}
use free_rtos_tsn_compatibil.Prelude.{
  ℕ, ◌≡◌, ◌⊎◌, ◌≤◌, ◌≢◌, inl, inr, refl, sym, ap, ◌∙◌, All, true, false, ◌==◌, if◌then◌else◌, none,
  some, List, [], ◌∷◌, Occurs, arith,
}
use free_rtos_tsn_compatibil.Kernel.{Item}
use free_rtos_tsn_compatibil.State.{NetworkQueue, State, priority_select, done}
use free_rtos_tsn_compatibil.Block.{Env}
use free_rtos_tsn_compatibil.Block.Hierarchy.{Serves, leaf, by_priority, last, at_child}
use free_rtos_tsn_compatibil.World.{NetworkBuffer, World}
use free_rtos_tsn_compatibil.Sockets.Send.{tx_item}
use free_rtos_tsn_compatibil.Controller.{Stack, deliver_frame}
use free_rtos_tsn_compatibil.Controller.Task.{drain}
use free_rtos_tsn_compatibil.Controller.Waiting.{Ready, total, IsSendable, same_queue}
use free_rtos_tsn_compatibil.Controller.Drains.{Transmits, drain_lem}
use free_rtos_tsn_compatibil.Controller.Fate.{Fate}
use free_rtos_tsn_compatibil.Controller.Delivery.{Forgotten, deliver_frame_lem}
use free_rtos_tsn_compatibil.Controller.Served.{hand_out, drain-Mem}
use free_rtos_tsn_compatibil.Examples.Bounded.{bounded_kernel}
use free_rtos_tsn_compatibil.Examples.Pointers.{pointers}
use free_rtos_tsn_compatibil.Examples.Network.{
  generic, leaf_node, root_node, urgent, normal, net, config,
}
use free_rtos_tsn_compatibil.Examples.FrameCases.{little_endian}
use free_rtos_tsn_compatibil.Examples.SocketCases.{world, answers, memory, blank, first}

-- Two packets in the queue 1 and one in the queue 2.
abbrev urgent_waiting : NetworkQueue bounded_kernel
urgent_waiting = record urgent { queue = record { cap = 4; items = tx_item 30 ∷ tx_item 31 ∷ [] } }

abbrev normal_waiting : NetworkQueue bounded_kernel
normal_waiting = record normal { queue = record { cap = 4; items = tx_item 32 ∷ [] } }

abbrev waiting_net : State bounded_kernel
waiting_net = record net {
  queues =
      λ q. if q == 1 then some urgent_waiting else if q == 2 then some normal_waiting else none;
}

abbrev descriptor : NetworkBuffer
descriptor = record (answers.descriptor) { end_point = 71 }

abbrev waiting_world : World bounded_kernel pointers
waiting_world = record world { net = waiting_net; buffers = λ b. some descriptor }

abbrev stack : Stack
stack = record {
  lookup = λ port. 0;
  ip_task_takes = λ b. true;
  process = λ b. true;
  interface_of = λ end_point. 90;
}

abbrev env : Env
env = record { now = 100; data_length = λ b. 100 }

waiting_Serves : Serves bounded_kernel waiting_net 2 10 (1 ∷ 2 ∷ [])
waiting_Serves =
    by_priority root_node (record generic { select = priority_select }) refl refl refl refl refl
      (at_child 11 refl
        (leaf (leaf_node 1) generic urgent_waiting refl refl refl (omega arith) refl)
        (at_child 12 refl
          (leaf (leaf_node 2) generic normal_waiting refl refl refl (omega arith) refl) last refl)
        refl)

abbrev AreSendable : NetworkQueue bounded_kernel → Type 0
AreSendable q = All (IsSendable bounded_kernel stack waiting_world.buffers) q.queue.items

waiting_sendable :
    (a : ℕ) (q : NetworkQueue bounded_kernel)
    → Occurs a (1 ∷ 2 ∷ [])
    → waiting_net.queues a ≡ some q
    → AreSendable q
waiting_sendable a q (inl one) there =
    subst AreSendable
      (same_queue bounded_kernel stack waiting_world.buffers
        (ap waiting_net.queues (sym one) ∙ there))
      (
        (refl, refl, (descriptor, refl, omega arith, omega arith)),
        ((refl, refl, (descriptor, refl, omega arith, omega arith)), tt),
      )
waiting_sendable a q (inr (inl two)) there =
    subst AreSendable
      (same_queue bounded_kernel stack waiting_world.buffers
        (ap waiting_net.queues (sym two) ∙ there))
      ((refl, refl, (descriptor, refl, (omega arith), (omega arith))), tt)
waiting_sendable a q (inr (inr never)) there = elim never [ ]

waiting_Ready : Ready bounded_kernel stack waiting_world.buffers waiting_net 2 (1 ∷ 2 ∷ [])
waiting_Ready = record {
  rooted = omega arith;
  serves = waiting_Serves;
  null_free = refl;
  listed = ((urgent_waiting, refl), ((normal_waiting, refl), tt));
  sendable = waiting_sendable;
}

drain_lem_example :
    (w' : World bounded_kernel pointers) × (served : List (ℕ × Item)) × (drain bounded_kernel
        pointers config little_endian stack 4 2 env waiting_world
      ≡ done w')
    × Transmits bounded_kernel pointers config little_endian stack 2 env
        (1 ∷ 2 ∷ [])
        waiting_world
        served
        w'
unfolding total
drain_lem_example =
    drain_lem bounded_kernel pointers config little_endian stack 2 env 4 waiting_world 2
      (1 ∷ 2 ∷ []) waiting_Ready (omega arith) (omega arith)

-- The second packet of the first queue.
drain-Mem_example :
    (w' : World bounded_kernel pointers) × (drain bounded_kernel pointers config little_endian stack
        4 2 env waiting_world
      ≡ done w')
    × Mem
        (hand_out bounded_kernel pointers stack waiting_world.buffers descriptor (tx_item 31))
        w'.effects
unfolding total
drain-Mem_example =
    drain-Mem bounded_kernel pointers config little_endian stack 2 env (1 ∷ 2 ∷ []) 4 waiting_world
      2 1 urgent_waiting (tx_item 31) descriptor waiting_Ready (omega arith) (omega arith)
      (inl refl) refl (mem-cons_of_mem (tx_item 30) mem-cons_self) refl

abbrev received_buffer : NetworkBuffer
received_buffer = record descriptor { interface = 90 }

-- A frame that was received, for a port that no TSN socket has.
abbrev received : World bounded_kernel pointers
received = record world {
  memory = record memory { bytes = λ a. some (blank 60) };
  buffers = λ b. some received_buffer;
}

deliver_frame_lem_example :
    (w' : World bounded_kernel pointers) × (deliver_frame bounded_kernel pointers little_endian
        stack received
        (tx_item 30)
        false
      ≡ done w')
    × (((received_buffer.interface ≢ 0)
          × (received_buffer.end_point ≢ 0)
          × (14 ≤ received_buffer.data_length)
          × Fate bounded_kernel pointers stack [] 30 w')
        ⊎ Forgotten bounded_kernel pointers stack config little_endian received received_buffer w')
deliver_frame_lem_example =
    deliver_frame_lem bounded_kernel pointers stack config little_endian received (tx_item 30)
      received_buffer (blank 60) false (3 ∷ []) (omega arith) refl refl refl (omega arith) refl
      ((first, refl), tt) ((λ t there. ground arith), tt)
