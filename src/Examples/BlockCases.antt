-- ===== src/Examples/BlockCases.antt =====
-- The scheduler's nodes, its wakeups and the credit based shaper at concrete inputs.
use free_rtos_tsn_compatibil.Prelude.{
  ℕ, ◌+◌, ◌≤◌, ◌<◌, ◌≡◌, ◌≢◌, ◌⊎◌, refl, true, false, some, [], ◌∷◌, All, arith,
}
use free_rtos_tsn_compatibil.Kernel.{Kernel}
use free_rtos_tsn_compatibil.State.{Node, Cbs, cbs_ready, priority_select, State, update, done}
use free_rtos_tsn_compatibil.Block.{Env, peek_next_packet, cbs_is_ready, scheduler_call, schedule}
use free_rtos_tsn_compatibil.Block.Credit.{
  Grants, stop, grant, burst, total, ends, Grants-bounded, Grants-interval,
}
use free_rtos_tsn_compatibil.Block.Hierarchy.{
  Serves, leaf, by_priority, last, at_child, IsIdle, IsFirst, schedule_lem,
}
use free_rtos_tsn_compatibil.Block.Create.{link_child}
use free_rtos_tsn_compatibil.Block.Linking.{Linked, link_child_lem}
use free_rtos_tsn_compatibil.Examples.Bounded.{bounded_kernel}
use free_rtos_tsn_compatibil.Examples.Network.{
  urgent, normal, generic, leaf_node, root_node, shaper, shaper_scheduler, shaper_node, net,
}

abbrev k : Kernel
k = bounded_kernel

-- Packets of 100 bytes, at the tick 105.
abbrev env : Env
env = record { now = 105; data_length = λ b. 100 }

-- The shaper's node after a packet that costs 100 ticks.
abbrev charged : Cbs
charged = record shaper { next_activation = 200 }

abbrev charged_node : Node
charged_node = record shaper_node {
  scheduler = some (record shaper_scheduler { ready = cbs_ready charged });
}

abbrev charged_net : State k
charged_net = record net { nodes = update net.nodes 13 charged_node }

shaper_grants :
    cbs_is_ready k env net 13 shaper_node shaper_scheduler shaper ≡ done (charged_net, true)
unfolding cbs_is_ready
shaper_grants = refl

one_grant : Grants k 13 shaper ((105, 100) ∷ []) charged
one_grant =
    grant env net charged_net shaper_node shaper_scheduler 77 shaper_grants
      (unfold peek_next_packet in refl)
      (record {
        node = charged_node;
        scheduler = record shaper_scheduler { ready = cbs_ready charged };
        node_there = refl;
        scheduler_there = refl;
        attributes = refl;
      })
      (omega arith) (omega arith) (omega arith) stop

Grants-bounded_example : 105 + total k ((105, 100) ∷ []) ≤ 200 + burst k shaper
Grants-bounded_example = Grants-bounded k 200 one_grant (omega arith)

Grants-interval_example : 105 + total k ((105, 100) ∷ []) ≤ ends k (105, 100) [] + burst k shaper
Grants-interval_example = Grants-interval k one_grant

net-Serves : Serves k net 2 10 (1 ∷ 2 ∷ [])
net-Serves =
    by_priority root_node (record generic { select = priority_select }) refl refl refl refl refl
      (at_child 11 refl (leaf (leaf_node 1) generic urgent refl refl refl (omega arith) refl)
        (at_child 12 refl (leaf (leaf_node 2) generic normal refl refl refl (omega arith) refl) last
          refl)
        refl)

schedule_lem_example :
    (p : ℕ) × (schedule k 2 env net ≡ done (net, p))
    × (((p ≡ 0) × All (IsIdle k net) (1 ∷ 2 ∷ [])) ⊎ IsFirst k net (1 ∷ 2 ∷ []) p)
schedule_lem_example = schedule_lem k net env 2 (omega arith) net-Serves refl (omega arith)

schedule_runs : schedule k 2 env net ≡ done (net, 2)
unfolding schedule scheduler_call
schedule_runs = refl

link_child_lem_example :
    ((1 < root_node.num_children)
      × (root_node.queue ≡ 0)
      × ((st' : State k) × (link_child k net 10 13 1 ≡ done (st', true))
          × Linked k net 10 root_node 1 13 st'))
    ⊎ (((root_node.num_children ≤ 1) ⊎ (root_node.queue ≢ 0))
        × (link_child k net 10 13 1 ≡ done (net, false)))
link_child_lem_example = link_child_lem k net 10 13 1 root_node (omega arith) refl (omega arith)
