-- ===== src/Block.antt =====
-- source/FreeRTOS_TSN_NetworkSchedulerBlock.c: the nodes of the network scheduler and the call
-- that walks them, with the priority scheduler of source/modules/BasicSchedulers/BasicSchedulers.c
-- and the ready function of source/modules/CreditBasedScheduler/SchedCBS.c, which it reaches
-- through `fnSelect` and `fnReady`.
pub mod Wakeup
pub mod Credit
pub mod Create
pub mod Linking
pub mod Hierarchy
use free_rtos_tsn_compatibil.Prelude.{
  ℕ, zero, suc, ◌+◌, ◌-◌, ◌*◌, ◌/◌, ◌%◌, ◌^◌, Bool, true, false, ◌&&◌, ◌||◌, not, ltb, leb, ◌==◌,
  if◌then◌else◌, Option, none, some, List, [], ◌∷◌, get_elem?, set, replicate,
}
use free_rtos_tsn_compatibil.Kernel.{Kernel, Item}
use free_rtos_tsn_compatibil.State.{
  NetworkQueue, Node, Scheduler, SelectFunction, select_first, priority_select, ReadyFunction,
  always_ready, cbs_ready, Cbs, State, u32, update, Run, done, fault, out_of_fuel, ◌>>=◌, deref,
}
use free_rtos_tsn_compatibil.Priority.{is_empty}

-- What a call reads besides the state: the tick count, which stays the same while the call runs,
-- and `xDataLength` of the network buffer at an address.
pub record Env : Type 0 where
  pub now : ℕ
  pub data_length : ℕ → ℕ

-- The credit that a CBS scheduler may gather, and the delay that a packet costs, in milliseconds;
-- the products are taken in 32 bits.
abbrev pub credit_ms : Cbs → ℕ
credit_ms c = u32 (c.max_credit * 1000) / c.bandwidth

abbrev pub packet_ms : Cbs → ℕ → ℕ
packet_ms c bytes = u32 (bytes * 8 * 1000) / c.bandwidth

-- The new `uxNextActivation` of a CBS scheduler that is ready.
unfoldable pub next_activation : ℕ → ℕ → ℕ → ℕ → ℕ
next_activation now max_delay delay next =
    if ltb (u32 (next + max_delay)) now
    then u32 (u32 (now + 2 ^ 32 - max_delay) + delay)
    else u32 (next + delay)

module _ (k : Kernel) where
  -- `uxNetworkQueueGetTicksUntilWakeup`.
  unfoldable pub ticks_until_wakeup : ℕ → State k → ℕ
  ticks_until_wakeup now st = if ltb now st.next_wakeup then st.next_wakeup - now else k.max_delay

  -- `vNetworkQueueAddWakeupEvent`.
  unfoldable pub add_wakeup_event : ℕ → State k → ℕ → State k
  add_wakeup_event now st time =
      if ltb time st.next_wakeup || leb st.next_wakeup now
      then record st { next_wakeup = time }
      else st

  -- `pxPeekNextPacket`: the network buffer of the item at the front of the node's queue, or 0.
  unfoldable pub peek_next_packet : State k → Node → Run ℕ
  peek_next_packet st nd = deref (st.queues nd.queue) >>= λ q.
      done (elim (k.peek q.queue) [ none ↦ 0 | some item ↦ item.buf ])

  -- `prvCBSReady` on the node `nd` at address `n`, whose scheduler is `s` with the attributes `c`.
  unfoldable pub cbs_is_ready : Env → State k → ℕ → Node → Scheduler → Cbs → Run (State k × Bool)
  unfolding add_wakeup_event peek_next_packet next_activation
  cbs_is_ready env st n nd s c =
      if leb c.next_activation env.now
      then (peek_next_packet st nd >>= λ packet.
          if packet == 0 || c.bandwidth == 0
          then fault
          else (let delay = k.ms_to_ticks (packet_ms c (env.data_length packet)) in
              let max_delay = k.ms_to_ticks (credit_ms c) in
              let next = next_activation env.now max_delay delay c.next_activation in
              let s' = record s { ready = cbs_ready (record c { next_activation = next }) } in
              done (
                record st { nodes = update st.nodes n (record nd { scheduler = some s' }) },
                true,
              )))
      else done (add_wakeup_event env.now st c.next_activation, false)

  -- `netschedCALL_READY_FROM_NODE`; `prvAlwaysReady` returns pdTRUE.
  unfoldable pub call_ready : Env → State k → ℕ → Node → Scheduler → Run (State k × Bool)
  call_ready env st n nd s = elim (s.ready) [
    | always_ready ↦ done (st, true)
    | cbs_ready c ↦ cbs_is_ready env st n nd s c
  ]

  -- The loop of `prvPrioritySelect`: the rounds left, and `usIter`.
  unfoldable pub priority_loop :
      (State k → ℕ → Run (State k × ℕ)) → List ℕ → ℕ → ℕ → State k → Run (State k × ℕ)
  priority_loop rec next zero i st = done (st, 0)
  priority_loop rec next (suc rounds) i st = deref (get_elem? next i) >>= λ child.
      rec st child >>= λ (st', result). elim (result == 0) [
        | true ↦ priority_loop rec next rounds (i + 1) st'
        | false ↦ done (st', result)
      ]

  -- `netschedCALL_SELECT_FROM_NODE`: `prvSelectFirst` or `prvPrioritySelect`.
  unfoldable pub call_select :
      (State k → ℕ → Run (State k × ℕ)) → State k → Node → Scheduler → Run (State k × ℕ)
  unfolding priority_loop
  call_select rec st nd s = elim (s.select) [
    | select_first ↦ deref (get_elem? nd.next 0) >>= λ child. rec st child
    | priority_select ↦ priority_loop rec nd.next nd.num_children 0 st
  ]

  -- The body of `pxNetworkSchedulerCall`, with the recursive call as an argument.
  unfoldable pub call_node :
      Env → (State k → ℕ → Run (State k × ℕ)) → State k → ℕ → Run (State k × ℕ)
  unfolding is_empty call_ready call_select
  call_node env rec st n = deref (st.nodes n) >>= λ nd. deref nd.scheduler >>= λ s.
      call_ready env st n nd s >>= λ (st', ready).
      if ready
      then (if nd.queue == 0
          then call_select rec st' nd s
          else (deref (st'.queues nd.queue) >>= λ q.
              done (st', if is_empty k q then 0 else nd.queue)))
      else done (st', 0)

  -- `pxNetworkSchedulerCall`; 0 is NULL. The fuel bounds the depth of the recursion.
  unfoldable pub scheduler_call : ℕ → Env → State k → ℕ → Run (State k × ℕ)
  unfolding call_node
  scheduler_call zero env st n = out_of_fuel
  scheduler_call (suc fuel) env st n = call_node env (scheduler_call fuel env) st n

  -- `xNetworkQueueSchedule` of source/FreeRTOS_TSN_NetworkScheduler.c.
  unfoldable pub schedule : ℕ → Env → State k → Run (State k × ℕ)
  schedule fuel env st = if st.root == 0 then done (st, 0) else scheduler_call fuel env st st.root
