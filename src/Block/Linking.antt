-- ===== src/Block/Linking.antt =====
-- What linking and creating nodes guarantees.
use native.Mathlib.Decide.{dec_lt, ℕ_discrete}
use free_rtos_tsn_compatibil.Prelude.{
  length-set, get_elem?-set, length-replicate, ℕ, ◌%◌, ◌≤◌, ◌<◌, ◌≡◌, ◌≢◌, refl, ◌⊎◌, inl, inr,
  true, false, ◌==◌, if◌then◌else◌, none, some, length, get_elem?, set, replicate, arith,
}
use free_rtos_tsn_compatibil.Kernel.{Kernel}
use free_rtos_tsn_compatibil.State.{
  Node, Scheduler, select_first, priority_select, always_ready, State, update, done,
}
use free_rtos_tsn_compatibil.Block.Create.{link_queue, link_child, node_create_prio}

-- The array of children has at least the counted places.
abbrev pub HasRoom : Node → Type 0
HasRoom nd = nd.num_children ≤ length nd.next

module _ (k : Kernel) where
  -- What a link at a position leaves in the parent.
  pub record Linked (st : State k) (n : ℕ) (nd : Node) (position child : ℕ) (st' : State k)
      : Type 0 where
    pub node : Node
    pub stored : st'.nodes n ≡ some node
    pub has_room : HasRoom node
    pub same_queue : node.queue ≡ nd.queue
    pub same_count : node.num_children ≡ nd.num_children
    pub children :
        (j : ℕ)
        → get_elem? node.next j ≡ (if position == j then some child else get_elem? nd.next j)
    pub others : (a : ℕ) → a ≢ n → st'.nodes a ≡ st.nodes a

  -- On an allocated node whose array has room for its children, xNetworkSchedulerLinkChild returns
  -- pdPASS exactly when the position is below the number of children and no queue is linked; then
  -- it writes that child and no other, and otherwise it changes nothing.
  pub link_child_lem :
      (st : State k) (n child position : ℕ) (nd : Node)
      → n ≢ 0
      → st.nodes n ≡ some nd
      → HasRoom nd
      → ((position < nd.num_children)
          × (nd.queue ≡ 0)
          × ((st' : State k) × (link_child k st n child position ≡ done (st', true))
              × Linked st n nd position child st'))
        ⊎ (((nd.num_children ≤ position) ⊎ (nd.queue ≢ 0))
            × (link_child k st n child position ≡ done (st, false)))
  unfolding link_child
  link_child_lem st n child position nd ne there room = elim (dec_lt position nd.num_children) [
    | yes below ↦ elim (ℕ_discrete nd.queue 0) [
      | yes free ↦ inl (
        below,
        free,
        (
          record st { nodes = update st.nodes n (record nd { next = set nd.next position child }) },
          ground arith,
          record {
            node = record nd { next = set nd.next position child };
            stored = ground arith;
            has_room = omega (arith, length-set nd.next position child);
            same_queue = refl;
            same_count = refl;
            children = λ j. get_elem?-set nd.next position j child (omega arith);
            others = λ a d. ground arith;
          },
        ),
      )
      | no taken ↦ inr (inr taken, ground arith)
    ]
    | no above ↦ inr (inl (omega arith), ground arith)
  ]

  -- xNetworkSchedulerLinkQueue takes a queue on any allocated node, also on one that has children
  -- linked; after it with a queue that is not NULL, no child can be linked to the node.
  pub link_queue_blocks :
      (st : State k) (n queue : ℕ) (nd : Node)
      → n ≢ 0
      → queue ≢ 0
      → st.nodes n ≡ some nd
      → (st' : State k) × (link_queue k st n queue ≡ done (st', true))
        × (st'.nodes n ≡ some (record nd { queue = queue }))
        × ((child position : ℕ) → link_child k st' n child position ≡ done (st', false))
  unfolding link_queue link_child
  link_queue_blocks st n queue nd ne full there = (
    record st { nodes = update st.nodes n (record nd { queue = queue }) },
    ground arith,
    ground arith,
    λ child position. ground arith,
  )

  -- With memory for the node and its scheduler, pxNetworkNodeCreatePrio returns the new address.
  -- The node there has no queue and no children yet, counts them modulo 256 in an array with room
  -- for all of them, and selects by priority.
  pub node_create_prio_lem :
      (st : State k) (n num_children : ℕ)
      → n ≢ 0
      → (st' : State k) × (nd : Node) × (s : Scheduler) × (node_create_prio k st n true num_children
          ≡ done (st', n))
        × (st'.nodes n ≡ some nd)
        × (nd.scheduler ≡ some s)
        × (s.select ≡ priority_select)
        × (s.ready ≡ always_ready)
        × (nd.queue ≡ 0)
        × (nd.num_children ≡ num_children % 256)
        × HasRoom nd
  unfolding node_create_prio
  node_create_prio_lem st n num_children ne =
      let s : Scheduler = record { size = 16; select = priority_select; ready = always_ready } in
      let s0 : Scheduler = record { size = 16; select = select_first; ready = always_ready } in
      let nd : Node = record {
        num_children = num_children % 256;
        scheduler = some s;
        queue = 0;
        next = replicate num_children 0;
      } in
      let nodes1 = update st.nodes n (record nd { scheduler = none }) in
      let nodes2 = update nodes1 n (record nd { scheduler = some s0 }) in
      (
        record st { nodes = update nodes2 n nd },
        nd,
        s,
        ground arith,
        ground arith,
        refl,
        refl,
        refl,
        refl,
        refl,
        omega (arith, length-replicate {A = ℕ} num_children 0),
      )
