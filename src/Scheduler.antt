-- ===== src/Scheduler.antt =====
-- source/FreeRTOS_TSN_NetworkScheduler.c, and the creation of queues of
-- source/FreeRTOS_TSN_NetworkSchedulerQueue.c.
pub mod Choice
pub mod Registry
pub mod Insertion
use free_rtos_tsn_compatibil.Prelude.{
  ℕ, zero, suc, ◌+◌, Bool, true, false, ◌&&◌, ltb, leb, ◌==◌, if◌then◌else◌, Option, none, some,
  List, [], ◌∷◌, length,
}
use free_rtos_tsn_compatibil.Kernel.{Kernel, Item, EventType, network_tx, network_rx, other_event}
use free_rtos_tsn_compatibil.State.{
  QueuePolicy, send_recv, send_only, recv_only, ip_task_events, NetworkQueue, State, Config, u32,
  update, release, Run, done, fault, ◌>>=◌, deref,
}
use free_rtos_tsn_compatibil.Priority.{update_priority, notify_controller}

-- `tsnconfigMAX_QUEUE_NAME_LEN`.
abbrev pub max_queue_name_len : ℕ
max_queue_name_len = 32

-- `prvMatchQueuePolicy`.
unfoldable pub match_queue_policy : QueuePolicy → EventType → Bool
match_queue_policy send_recv network_tx = true
match_queue_policy send_recv network_rx = true
match_queue_policy send_recv (other_event n) = false
match_queue_policy send_only network_tx = true
match_queue_policy send_only network_rx = false
match_queue_policy send_only (other_event n) = false
match_queue_policy recv_only network_tx = false
match_queue_policy recv_only network_rx = true
match_queue_policy recv_only (other_event n) = false
match_queue_policy ip_task_events e = true

-- `strncmp(a, b, n) == 0` of the C library, on the bytes of two strings before their terminators.
unfoldable pub strncmp_eq : ℕ → List ℕ → List ℕ → Bool
strncmp_eq zero a b = true
strncmp_eq (suc n) [] [] = true
strncmp_eq (suc n) [] (y ∷ b) = false
strncmp_eq (suc n) (x ∷ a) [] = false
strncmp_eq (suc n) (x ∷ a) (y ∷ b) = x == y && strncmp_eq n a b

-- The walk of `vNetworkQueueListAdd` to the last item of the linked list.
unfoldable pub list_add : List ℕ → ℕ → List ℕ
list_add [] p = p ∷ []
list_add (x ∷ xs) p = x ∷ list_add xs p

-- The call of a filter. The loop that calls it has faulted where the filter is NULL.
abbrev pub filter_passes : Option (ℕ → Bool) → ℕ → Bool
filter_passes none buffer = false
filter_passes (some filter) buffer = filter buffer

module _ (k : Kernel) where
  -- The tests of a queue against an item, in the loop of `xNetworkQueueInsertPacketByFilter`.
  unfoldable pub is_match : Item → NetworkQueue k → Bool
  unfolding match_queue_policy
  is_match item q = filter_passes q.filter item.buf && match_queue_policy q.policy item.event_type

  -- One round of that loop: `pxChosenQueue` with the struct that it points to.
  unfoldable pub consider :
      Item → ℕ → NetworkQueue k → Option (ℕ × NetworkQueue k) → Option (ℕ × NetworkQueue k)
  unfolding is_match
  consider item p q none = if is_match item q then some (p, q) else none
  consider item p q (some (c, chosen)) =
      if is_match item q
      then (if leb q.ipv chosen.ipv then some (c, chosen) else some (p, q))
      else some (c, chosen)

  -- The loop.
  unfoldable pub choose :
      (ℕ → Option (NetworkQueue k))
      → Item
      → List ℕ
      → Option (ℕ × NetworkQueue k)
      → Run (Option (ℕ × NetworkQueue k))
  unfolding consider
  choose heap item [] chosen = done chosen
  choose heap item (p ∷ ps) chosen = deref (heap p) >>= λ q.
      deref q.filter >>= λ filter. choose heap item ps (consider item p q chosen)

  -- `xNetworkQueuePush`, without the callback; true is pdPASS.
  unfoldable pub push : Config → State k → ℕ → Item → ℕ → Run (State k × Bool)
  push c st p item timeout = deref (st.queues p) >>= λ q.
      let (queue', sent) = k.send_to_back q.queue item timeout in
      let st' = record st { queues = update st.queues p (record q { queue = queue' }) } in
      done (
        if sent
        then (notify_controller k (update_priority k c st' q.ipv).0, true)
        else (st', false))

  -- `xNetworkQueueInsertPacketByFilter`.
  unfoldable pub insert_packet_by_filter : Config → State k → Item → ℕ → Run (State k × Bool)
  insert_packet_by_filter c st item timeout = choose st.queues item st.queue_list none >>= λ chosen.
      elim chosen [ none ↦ done (st, false) | some (p, q) ↦ push c st p item timeout ]

  -- `pxNetworkQueueFindByName`, from an item of the list on; 0 is NULL.
  unfoldable pub find_by_name : (ℕ → Option (NetworkQueue k)) → List ℕ → Item → List ℕ → Run ℕ
  find_by_name heap name item [] = done 0
  find_by_name heap name item (p ∷ ps) = deref (heap p) >>= λ q.
      let rest = find_by_name heap name item ps in
      if match_queue_policy q.policy item.event_type && strncmp_eq max_queue_name_len name q.name
      then done p
      else rest

  -- `xNetworkQueueInsertPacketByName`.
  unfoldable pub insert_packet_by_name : Config → State k → Item → List ℕ → ℕ → Run (State k × Bool)
  insert_packet_by_name c st item name timeout =
      find_by_name st.queues name item st.queue_list >>= λ p.
      if p == 0 then done (st, false) else push c st p item timeout

  -- `xNetworkQueuePop`, without the callback.
  unfoldable pub pop : State k → ℕ → ℕ → Run (State k × Option Item)
  pop st p timeout = deref (st.queues p) >>= λ q.
      let (queue', item) = k.receive q.queue timeout in
      done (record st { queues = update st.queues p (record q { queue = queue' }) }, item)

  -- `vNetworkQueueListAdd`.
  unfoldable pub network_queue_list_add : State k → ℕ → State k
  unfolding list_add
  network_queue_list_add st p = record st {
    num_queues = u32 (st.num_queues + 1);
    queue_list = list_add st.queue_list p;
  }

  -- `xNetworkQueueAssignRoot`.
  unfoldable pub assign_root : State k → ℕ → State k × Bool
  assign_root st node = if st.root == 0 then (record st { root = node }, true) else (st, false)

  -- `pxNetworkQueueMalloc`. The address is what pvPortMalloc returned for the queue, and
  -- `has_list_node` tells whether it returned memory for the list item. The cleared filter is a
  -- NULL pointer.
  unfoldable pub queue_malloc : Config → State k → ℕ → Bool → Run (State k × ℕ)
  queue_malloc c st p has_list_node =
      if p == 0
      then done (st, 0)
      else (deref (k.create c.event_queue_length) >>= λ queue.
          let q : NetworkQueue k = record {
            queue = queue;
            ipv = 0;
            policy = send_recv;
            name = [];
            filter = none;
          } in
          if has_list_node
          then done (network_queue_list_add (record st { queues = update st.queues p q }) p, p)
          else fault)

  -- `pxNetworkQueueCreate`. A NULL name is `none`, as is a NULL filter; `strcpy` of a name that
  -- leaves no room for its terminator writes out of the array.
  unfoldable pub queue_create :
      Config
      → State k
      → ℕ
      → Bool
      → QueuePolicy
      → ℕ
      → Option (List ℕ)
      → Option (ℕ → Bool)
      → Run (State k × ℕ)
  unfolding queue_malloc
  queue_create c st address has_list_node policy ipv name filter =
      queue_malloc c st address has_list_node >>= λ (st', p). deref (st'.queues p) >>= λ q.
      (elim name [
        | none ↦ done []
        | some n ↦ if ltb (length n) max_queue_name_len then done n else fault
      ])
      >>= λ name'.
          let filter' : ℕ → Bool = elim filter [ none ↦ λ _. true | some f ↦ f ] in
          let q' = record q { name = name'; filter = some filter'; policy = policy; ipv = ipv } in
          done (record st' { queues = update st'.queues p q' }, p)

  -- `vNetworkQueueFree`.
  unfoldable pub queue_free : State k → ℕ → Run (State k)
  queue_free st p = deref (st.queues p) >>= λ q. done (record st { queues = release st.queues p })
