-- ===== src/Block/Create.antt =====
-- The creation and the linking of nodes: source/FreeRTOS_TSN_NetworkSchedulerBlock.c,
-- source/modules/BasicSchedulers/BasicSchedulers.c and
-- source/modules/CreditBasedScheduler/SchedCBS.c.
use free_rtos_tsn_compatibil.Prelude.{
  ℕ, ◌%◌, Bool, true, false, ◌&&◌, ltb, leb, ◌==◌, if◌then◌else◌, none, some, set, replicate,
}
use free_rtos_tsn_compatibil.Kernel.{Kernel}
use free_rtos_tsn_compatibil.State.{
  Scheduler, select_first, priority_select, always_ready, cbs_ready, State, update, release, Run,
  done, fault, ◌>>=◌, deref,
}

-- `sizeof` of the scheduler structs on a 32-bit target: a `uint16_t` padded to a word and three
-- pointers, and for a CBS three words more.
abbrev pub sizeof_scheduler_generic : ℕ
sizeof_scheduler_generic = 16

abbrev pub sizeof_scheduler_cbs : ℕ
sizeof_scheduler_cbs = 28

module _ (k : Kernel) where
  -- `pxNetworkNodeCreate`: the address is what pvPortMalloc returned. The count is kept in a
  -- `uint8_t`; all else is zero.
  unfoldable pub node_create : State k → ℕ → ℕ → State k × ℕ
  node_create st n num_children = if n == 0 then (st, 0) else (
    record st {
      nodes = update st.nodes n (record {
        num_children = num_children % 256;
        scheduler = none;
        queue = 0;
        next = replicate num_children 0;
      });
    },
    n,
  )

  -- `vNetworkNodeRelease`.
  unfoldable pub node_release : State k → ℕ → Run (State k)
  node_release st n = deref (st.nodes n) >>= λ nd. done (record st { nodes = release st.nodes n })

  -- `pvNetworkSchedulerGenericCreate`: whether pvPortMalloc has memory. The result is whether it
  -- returns a scheduler, which is then that of the node.
  unfoldable pub scheduler_generic_create : State k → ℕ → ℕ → Bool → Run (State k × Bool)
  scheduler_generic_create st n size has_memory =
      if leb sizeof_scheduler_generic size
      then (if has_memory
          then (deref (st.nodes n) >>= λ nd.
              let s : Scheduler = record {
                size = size;
                select = select_first;
                ready = always_ready;
              } in
              done
                (record st { nodes = update st.nodes n (record nd { scheduler = some s }) }, true))
          else fault)
      else done (st, false)

  -- `vNetworkSchedulerGenericRelease` on the scheduler of the node at this address.
  unfoldable pub scheduler_generic_release : State k → ℕ → Run (State k)
  scheduler_generic_release st n = deref (st.nodes n) >>= λ nd. deref nd.scheduler >>= λ s.
      done (record st { nodes = update st.nodes n (record nd { scheduler = none }) })

  -- `xNetworkSchedulerLinkQueue`; true is pdPASS.
  unfoldable pub link_queue : State k → ℕ → ℕ → Run (State k × Bool)
  link_queue st n queue =
      if n == 0
      then done (st, false)
      else (deref (st.nodes n) >>= λ nd.
          done (record st { nodes = update st.nodes n (record nd { queue = queue }) }, true))

  -- `xNetworkSchedulerLinkChild`.
  unfoldable pub link_child : State k → ℕ → ℕ → ℕ → Run (State k × Bool)
  link_child st n child position =
      if n == 0
      then done (st, false)
      else (deref (st.nodes n) >>= λ nd.
          if ltb position nd.num_children && nd.queue == 0
          then (let nd' = record nd { next = set nd.next position child } in
              done (record st { nodes = update st.nodes n nd' }, true))
          else done (st, false))

  -- A write to the scheduler that a node was just given, without a test for NULL.
  unfoldable pub set_scheduler : State k → ℕ → (Scheduler → Scheduler) → Run (State k × ℕ)
  set_scheduler st n f = deref (st.nodes n) >>= λ nd. deref nd.scheduler >>= λ s.
      done (record st { nodes = update st.nodes n (record nd { scheduler = some (f s) }) }, n)

  -- `pxNetworkNodeCreatePrio`.
  unfoldable pub node_create_prio : State k → ℕ → Bool → ℕ → Run (State k × ℕ)
  unfolding node_create scheduler_generic_create set_scheduler
  node_create_prio st address has_memory num_children =
      let (st', n) = node_create st address num_children in
      scheduler_generic_create st' n sizeof_scheduler_generic has_memory >>= λ (st'', created).
      set_scheduler st'' n (λ s. record s { select = priority_select })

  -- `pxNetworkNodeCreateFIFO`.
  unfoldable pub node_create_fifo : State k → ℕ → Bool → Run (State k × ℕ)
  unfolding node_create scheduler_generic_create
  node_create_fifo st address has_memory =
      let (st', n) = node_create st address 1 in
      scheduler_generic_create st' n sizeof_scheduler_generic has_memory >>= λ (st'', created).
      done (st'', n)

  -- `pxNetworkNodeCreateCBS`, at a tick count.
  unfoldable pub node_create_cbs : ℕ → State k → ℕ → Bool → ℕ → ℕ → Run (State k × ℕ)
  unfolding node_create scheduler_generic_create set_scheduler
  node_create_cbs now st address has_memory bandwidth max_credit =
      let (st', n) = node_create st address 1 in
      scheduler_generic_create st' n sizeof_scheduler_cbs has_memory >>= λ (st'', created).
      set_scheduler st'' n λ s. record s {
        ready =
            cbs_ready
              (record { bandwidth = bandwidth; max_credit = max_credit; next_activation = now });
      }
