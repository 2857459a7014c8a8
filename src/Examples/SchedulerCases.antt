-- ===== src/Examples/SchedulerCases.antt =====
-- The queues and the controller's priority at concrete inputs.
use free_rtos_tsn_compatibil.Prelude.{
  ℕ, ◌+◌, ◌≡◌, ◌⊎◌, refl, true, false, some, [], ◌∷◌, All, arith,
}
use free_rtos_tsn_compatibil.Kernel.{Kernel}
use free_rtos_tsn_compatibil.State.{NetworkQueue, State, send_recv, u32, update, done}
use free_rtos_tsn_compatibil.Priority.{
  compute_priority, task_base_prio, is_empty, update_priority, notify_controller,
}
use free_rtos_tsn_compatibil.Priority.Maximum.{IsMaximum, compute_priority_lem}
use free_rtos_tsn_compatibil.Scheduler.{push, insert_packet_by_filter, choose, queue_create}
use free_rtos_tsn_compatibil.Scheduler.Choice.{Unmatched, Winner}
use free_rtos_tsn_compatibil.Scheduler.Insertion.{
  Pushed, IsCovered, insert_packet_by_filter_lem, push-IsCovered,
}
use free_rtos_tsn_compatibil.Scheduler.Registry.{
  IsRegistry, Created, queue_create_lem, queue_create-IsRegistry,
}
use free_rtos_tsn_compatibil.Examples.Bounded.{bounded_kernel}
use free_rtos_tsn_compatibil.Examples.Network.{packet, pass_all, urgent, normal, net, config}
use free_rtos_tsn_compatibil.Scheduler.Choice.{IsQueue}

abbrev k : Kernel
k = bounded_kernel

net_listed : All (λ p. (q : NetworkQueue k) × (net.queues p ≡ some q)) net.queue_list
net_listed = ((urgent, refl), ((normal, refl), tt))

net_filtered : All (IsQueue k net.queues packet) net.queue_list
net_filtered = ((urgent, refl, (pass_all, refl)), ((normal, refl, (pass_all, refl)), tt))

compute_priority_lem_example :
    (m : ℕ) × (compute_priority k config net ≡ done (record net { controller_priority = m }))
    × IsMaximum k net (task_base_prio config) net.queue_list m
compute_priority_lem_example = compute_priority_lem k net config net_listed

insert_packet_by_filter_lem_example :
    ((insert_packet_by_filter k config net packet 0 ≡ done (net, false))
      × All (Unmatched k net.queues packet) net.queue_list)
    ⊎ ((w : Winner k net.queues packet net.queue_list) × (((st' : State k)
            × (insert_packet_by_filter k config net packet 0 ≡ done (st', true))
            × Pushed k config net w.address w.queue packet st')
          ⊎ (insert_packet_by_filter k config net packet 0 ≡ done (net, false))))
insert_packet_by_filter_lem_example = insert_packet_by_filter_lem k config net packet 0 net_filtered

-- The packet goes to the queue of the higher priority.
insert_runs :
    (st' : State k) × (insert_packet_by_filter k config net packet 0 ≡ done (st', true))
    × (st'.queues 1 ≡ some (record urgent { queue = record { cap = 4; items = packet ∷ [] } }))
unfolding insert_packet_by_filter choose push update_priority notify_controller
insert_runs = (_, refl, refl)

abbrev after_push : State k
after_push = record net {
  queues = update net.queues 1 (record urgent { queue = record { cap = 4; items = packet ∷ [] } });
  controller_priority = 5;
  notifications = u32 (0 + 1);
}

push_runs : push k config net 1 packet 0 ≡ done (after_push, true)
unfolding push update_priority notify_controller
push_runs = refl

net-IsCovered : IsCovered k config net net
unfolding is_empty
net-IsCovered = (λ q e w. ground arith, (λ q e w. ground arith, tt))

push-IsCovered_example : IsCovered k config net after_push
push-IsCovered_example =
    push-IsCovered k config net 1 urgent packet 0 after_push refl refl push_runs net-IsCovered

queue_create_lem_example :
    (st' : State k) × (queue_create k config net 3 true send_recv 1
        (some (0x63 ∷ []))
        (some (λ b. true))
      ≡ done (st', 3))
    × Created k net 3 send_recv 1 (0x63 ∷ []) (λ b. true) st'
queue_create_lem_example =
    queue_create_lem k config net 3 (record { cap = 8; items = [] }) send_recv 1 (0x63 ∷ [])
      (λ b. true) (omega arith) refl (omega arith)

net-IsRegistry : IsRegistry k net
net-IsRegistry = record { null_free = refl; listed = net_listed; counted = refl }

queue_create-IsRegistry_example :
    (st' : State k) × (queue_create k config net 3 true send_recv 1
        (some (0x63 ∷ []))
        (some (λ b. true))
      ≡ done (st', 3))
    × IsRegistry k st'
queue_create-IsRegistry_example =
    queue_create-IsRegistry k config net 3 (record { cap = 8; items = [] }) send_recv 1 (0x63 ∷ [])
      (λ b. true) (omega arith) refl refl (omega arith) net-IsRegistry
