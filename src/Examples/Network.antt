-- ===== src/Examples/Network.antt =====
-- A small network scheduler: two queues below a priority node with two leaves.
use free_rtos_tsn_compatibil.Prelude.{
  ℕ, Bool, true, ◌==◌, if◌then◌else◌, Option, none, some, [], ◌∷◌,
}
use free_rtos_tsn_compatibil.Kernel.{Item, network_rx}
use free_rtos_tsn_compatibil.State.{
  NetworkQueue, Node, Scheduler, select_first, priority_select, always_ready, cbs_ready, Cbs, State,
  Config, send_recv, recv_only,
}
use free_rtos_tsn_compatibil.Examples.Bounded.{bounded_kernel}

abbrev pub packet : Item
packet = record { event_type = network_rx; buf = 77; msgh = 0; release_after_send = true }

abbrev pub pass_all : ℕ → Bool
pass_all b = true

abbrev pub urgent : NetworkQueue bounded_kernel
urgent = record {
  queue = record { cap = 4; items = [] };
  ipv = 5;
  policy = recv_only;
  name = 0x61 ∷ [];
  filter = some pass_all;
}

abbrev pub normal : NetworkQueue bounded_kernel
normal = record {
  queue = record { cap = 4; items = packet ∷ [] };
  ipv = 2;
  policy = send_recv;
  name = 0x62 ∷ [];
  filter = some pass_all;
}

abbrev pub generic : Scheduler
generic = record { size = 16; select = select_first; ready = always_ready }

abbrev pub leaf_node : ℕ → Node
leaf_node q = record { num_children = 1; scheduler = some generic; queue = q; next = 0 ∷ [] }

abbrev pub root_node : Node
root_node = record {
  num_children = 2;
  scheduler = some (record generic { select = priority_select });
  queue = 0;
  next = 11 ∷ 12 ∷ [];
}

abbrev pub shaper : Cbs
shaper = record { bandwidth = 8000; max_credit = 80; next_activation = 100 }

abbrev pub shaper_scheduler : Scheduler
shaper_scheduler = record { size = 28; select = select_first; ready = cbs_ready shaper }

abbrev pub shaper_node : Node
shaper_node = record {
  num_children = 1;
  scheduler = some shaper_scheduler;
  queue = 2;
  next = 0 ∷ [];
}

abbrev pub queue_heap : ℕ → Option (NetworkQueue bounded_kernel)
queue_heap p = if p == 1 then some urgent else if p == 2 then some normal else none

abbrev pub node_heap : ℕ → Option Node
node_heap n =
    if n == 10
    then some root_node
    else if n == 11
    then some (leaf_node 1)
    else if n == 12
    then some (leaf_node 2)
    else if n == 13
    then some shaper_node
    else none

abbrev pub net : State bounded_kernel
net = record {
  queues = queue_heap;
  nodes = node_heap;
  queue_list = 1 ∷ 2 ∷ [];
  num_queues = 2;
  root = 10;
  next_wakeup = 120;
  controller_priority = 2;
  notifications = 0;
}

abbrev pub config : Config
config = record { has_dynamic_prio = true; tsn_controller_priority = 4; event_queue_length = 8 }
