-- ===== src/Scheduler/Registry.antt =====
-- The creation and the release of queues, and the list of queues that the filters search
-- (source/FreeRTOS_TSN_NetworkSchedulerQueue.c, source/FreeRTOS_TSN_NetworkScheduler.c).
use free_rtos_tsn_compatibil.Prelude.{
  ℕ, ◌+◌, ◌<◌, ◌≡◌, ◌≢◌, refl, ap, sym, ◌∙◌, inl, inr, Bool, true, Option, none, some, List, [],
  ◌∷◌, ◌++◌, length, length-append, All, All-imp, All-append, Occurs, Option-cases, arith,
}
use free_rtos_tsn_compatibil.Kernel.{Kernel, Item}
use free_rtos_tsn_compatibil.State.{
  NetworkQueue, State, Config, QueuePolicy, send_recv, u32, update, release, done, fault, deref,
  ◌>>=◌,
}
use free_rtos_tsn_compatibil.Scheduler.Choice.{choose_step}
use free_rtos_tsn_compatibil.Scheduler.{
  list_add, queue_create, queue_malloc, queue_free, network_queue_list_add, insert_packet_by_filter,
  choose, consider, max_queue_name_len,
}

list_add-append : (xs : List ℕ) (p : ℕ) → list_add xs p ≡ xs ++ (p ∷ [])
unfolding list_add
list_add-append [] p = refl
list_add-append (x ∷ xs) p = ap (λ l. x ∷ l) (list_add-append xs p)

module _ (k : Kernel) where
  -- NULL leads to no queue, every listed address does, and `uxNumQueues` counts the list.
  pub record IsRegistry (st : State k) : Type 0 where
    pub null_free : st.queues 0 ≡ none
    pub listed : All (λ p. (q : NetworkQueue k) × (st.queues p ≡ some q)) st.queue_list
    pub counted : st.num_queues ≡ u32 (length st.queue_list)

  -- The queue that `pxNetworkQueueCreate` is to leave at a new address.
  pub record Created (st : State k) (p : ℕ) (policy : QueuePolicy) (ipv : ℕ) (name : List ℕ)
      (filter : ℕ → Bool) (st' : State k) : Type 0 where
    pub queue : NetworkQueue k
    pub stored : st'.queues p ≡ some queue
    pub empty : k.contents queue.queue ≡ []
    pub has_policy : queue.policy ≡ policy
    pub has_ipv : queue.ipv ≡ ipv
    pub has_name : queue.name ≡ name
    pub has_filter : queue.filter ≡ some filter
    pub others : (a : ℕ) → a ≢ p → st'.queues a ≡ st.queues a
    pub added_last : st'.queue_list ≡ st.queue_list ++ (p ∷ [])
    pub counted : st'.num_queues ≡ u32 (st.num_queues + 1)

  created_queue : k.Queue → QueuePolicy → ℕ → List ℕ → (ℕ → Bool) → NetworkQueue k
  created_queue queue policy ipv name filter = record {
    queue = queue;
    ipv = ipv;
    policy = policy;
    name = name;
    filter = some filter;
  }

  -- With memory for the queue, its kernel queue and its list item, and a name that fits with its
  -- terminator, pxNetworkQueueCreate ends without a fault, returns the new address, and leaves
  -- there an empty queue with the given policy, priority, name and filter, added to the end of the
  -- queue list.
  pub queue_create_lem :
      (c : Config) (st : State k) (p : ℕ) (queue : k.Queue) (policy : QueuePolicy) (ipv : ℕ)
      (name : List ℕ) (filter : ℕ → Bool)
      → p ≢ 0
      → k.create c.event_queue_length ≡ some queue
      → length name < max_queue_name_len
      → (st' : State k) × (queue_create k c st p true policy ipv (some name) (some filter)
          ≡ done (st', p))
        × Created st p policy ipv name filter st'
  unfolding queue_create network_queue_list_add created_queue
  queue_create_lem c st p queue policy ipv name filter ne made fits = (
    record st {
      num_queues = u32 (st.num_queues + 1);
      queue_list = list_add st.queue_list p;
      queues =
          update
            (update st.queues p
              (record { queue = queue; ipv = 0; policy = send_recv; name = []; filter = none }))
            p (created_queue queue policy ipv name filter);
    },
    rw made (ground arith),
    record {
      queue = created_queue queue policy ipv name filter;
      stored = ground arith;
      empty = k.create_empty _ queue made;
      has_policy = refl;
      has_ipv = refl;
      has_name = refl;
      has_filter = refl;
      others = λ a d. ground arith;
      added_last = list_add-append st.queue_list p;
      counted = refl;
    },
  )

  Created-IsRegistry :
      (st st' : State k) (p : ℕ) (policy : QueuePolicy) (ipv : ℕ) (name : List ℕ)
      (filter : ℕ → Bool)
      → p ≢ 0
      → st.queues p ≡ none
      → Created st p policy ipv name filter st'
      → IsRegistry st
      → IsRegistry st'
  Created-IsRegistry st st' p policy ipv name filter ne fresh made r = record {
    null_free = made.others 0 (λ e. ne (sym e)) ∙ r.null_free;
    listed = rw made.added_last (
        All-append _ st.queue_list (p ∷ []) (All-imp _ _ st.queue_list kept r.listed)
          ((made.queue, made.stored), tt));
    counted =
        rw made.added_last
          (omega (arith, made.counted, r.counted, length-append st.queue_list (p ∷ [])));
  }
    where
      kept :
          (a : ℕ)
          → ((q : NetworkQueue k) × (st.queues a ≡ some q))
          → (q : NetworkQueue k) × (st'.queues a ≡ some q)
      kept a (q, e) = (q, made.others a (λ same. cc) ∙ e)

  -- If every listed address leads to a queue, NULL to none, and uxNumQueues is the length of the
  -- list modulo 2 ^ 32, then, with memory at an address that was free and a name that fits with
  -- its terminator, pxNetworkQueueCreate returns that address and leaves a state of which the same
  -- holds.
  pub queue_create-IsRegistry :
      (c : Config) (st : State k) (p : ℕ) (queue : k.Queue) (policy : QueuePolicy) (ipv : ℕ)
      (name : List ℕ) (filter : ℕ → Bool)
      → p ≢ 0
      → st.queues p ≡ none
      → k.create c.event_queue_length ≡ some queue
      → length name < max_queue_name_len
      → IsRegistry st
      → (st' : State k) × (queue_create k c st p true policy ipv (some name) (some filter)
          ≡ done (st', p))
        × IsRegistry st'
  queue_create-IsRegistry c st p queue policy ipv name filter ne fresh made fits r =
      let (st', run, created) = queue_create_lem c st p queue policy ipv name filter ne made fits in
      (st', run, Created-IsRegistry st st' p policy ipv name filter ne fresh created r)

  -- If pvPortMalloc has no memory for the queue, pxNetworkQueueMalloc returns NULL and
  -- pxNetworkQueueCreate writes through it, whatever it was asked to create.
  pub queue_create_no_memory :
      (c : Config) (st : State k) (b : Bool) (policy : QueuePolicy) (ipv : ℕ)
      (name : Option (List ℕ)) (filter : Option (ℕ → Bool))
      → IsRegistry st
      → (queue_malloc k c st 0 b ≡ done (st, 0))
        × (queue_create k c st 0 b policy ipv name filter ≡ fault)
  unfolding queue_create
  queue_create_no_memory c st b policy ipv name filter r = (refl, rw r.null_free refl)

  choose_dangling :
      (heap : ℕ → Option (NetworkQueue k)) (item : Item) (p : ℕ) (ps : List ℕ)
      (chosen : Option (ℕ × NetworkQueue k))
      → heap p ≡ none
      → Occurs p ps
      → choose k heap item ps chosen ≡ fault
  unfolding choose
  choose_dangling heap item p [] chosen e o = elim o [ ]
  choose_dangling heap item p (a ∷ ps) chosen e (inl same) = rw (← same, e)
  choose_dangling heap item p (a ∷ ps) chosen e (inr o) = elim (Option-cases (heap a)) [
    | inl gone ↦ rw gone
    | inr (q, there) ↦ elim (Option-cases q.filter) [
      | inl null ↦
          ap
            (λ o. deref o >>= λ r.
              deref r.filter >>= λ g. choose k heap item ps (consider k item a r chosen))
            there
          ∙ ap (λ o. deref o >>= λ g. choose k heap item ps (consider k item a q chosen)) null
      | inr (f, filters) ↦
          choose_step k heap item a ps q f chosen there filters
          ∙ choose_dangling heap item p ps (consider k item a q chosen) e o
    ]
  ]

  -- vNetworkQueueFree leaves a listed queue in the list: after it, every insertion by filter reads
  -- freed memory, whatever the item is.
  pub queue_free_dangles :
      (c : Config) (st : State k) (p : ℕ) (q : NetworkQueue k)
      → st.queues p ≡ some q
      → Occurs p st.queue_list
      → (st' : State k) × (queue_free k st p ≡ done st')
        × ((item : Item) (t : ℕ) → insert_packet_by_filter k c st' item t ≡ fault)
  unfolding queue_free insert_packet_by_filter
  queue_free_dangles c st p q e o = (
    record st { queues = release st.queues p },
    rw e,
    λ item t. rw (choose_dangling (release st.queues p) item p st.queue_list none (ground arith) o),
  )
