-- ===== src/Priority.antt =====
-- source/FreeRTOS_TSN_Controller.c: the priority of the controller's task and its notification,
-- with the packet counts of source/FreeRTOS_TSN_NetworkSchedulerQueue.c that it reads.
pub mod Maximum
use free_rtos_tsn_compatibil.Prelude.{
  ℕ, ◌+◌, Bool, true, false, List, [], ◌∷◌, ltb, ◌==◌, if◌then◌else◌,
}
use free_rtos_tsn_compatibil.Kernel.{Kernel}
use free_rtos_tsn_compatibil.State.{NetworkQueue, State, Config, u32, Run, done, ◌>>=◌, deref}

-- `controllerTSN_TASK_BASE_PRIO`; tskIDLE_PRIORITY is 0.
abbrev pub task_base_prio : Config → ℕ
task_base_prio c = if c.has_dynamic_prio then 1 else c.tsn_controller_priority

module _ (k : Kernel) where
  -- `uxNetworkQueuePacketsWaiting`.
  unfoldable pub packets_waiting : NetworkQueue k → ℕ
  packets_waiting q = k.messages_waiting q.queue

  -- `xNetworkQueueIsEmpty`.
  unfoldable pub is_empty : NetworkQueue k → Bool
  is_empty q = k.messages_waiting q.queue == 0

  -- `xTSNControllerUpdatePriority`. vTaskPrioritySet is taken to set the priority that it is
  -- given, as the kernel does for a priority below configMAX_PRIORITIES. The result is pdTRUE
  -- where the priority was raised.
  unfoldable pub update_priority : Config → State k → ℕ → State k × Bool
  update_priority c st priority =
      if c.has_dynamic_prio
      then (if ltb st.controller_priority priority
          then (record st { controller_priority = priority }, true)
          else (st, false))
      else (st, false)

  -- The loop of `vTSNControllerComputePriority` over the queue list.
  unfoldable pub max_ipv : State k → List ℕ → ℕ → Run ℕ
  unfolding is_empty
  max_ipv st [] priority = done priority
  max_ipv st (p ∷ ps) priority = deref (st.queues p) >>= λ q.
      max_ipv st ps
        (if is_empty q then priority else if ltb priority q.ipv then q.ipv else priority)

  -- `vTSNControllerComputePriority`, with vTaskPrioritySet as above.
  unfoldable pub compute_priority : Config → State k → Run (State k)
  unfolding max_ipv
  compute_priority c st = max_ipv st st.queue_list (task_base_prio c) >>= λ priority.
      done (record st { controller_priority = priority })

  -- `xNotifyController`.
  unfoldable pub notify_controller : State k → State k
  notify_controller st = record st { notifications = u32 (st.notifications + 1) }
