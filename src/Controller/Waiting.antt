-- ===== src/Controller/Waiting.antt =====
-- The packets that wait in the queues that the task of the TSN controller serves
-- (source/FreeRTOS_TSN_Controller.c), and what a packet less changes.
use mathlib.Core.Path.{subst}
use free_rtos_tsn_compatibil.Prelude.{
  ℕ, ◌+◌, ◌≤◌, ◌<◌, ◌≡◌, ◌≢◌, ap, sym, ◌∙◌, inl, inr, ◌==◌, Bool-cases, Option, none, some, List,
  [], ◌∷◌, length, All, All-imp, Occurs, arith,
}
use free_rtos_tsn_compatibil.Kernel.{Kernel, Item, network_tx}
use free_rtos_tsn_compatibil.State.{NetworkQueue, State}
use free_rtos_tsn_compatibil.Block.Hierarchy.{
  Serves, leaf, through_first, by_priority, ServeAll, last, at_child,
}
use free_rtos_tsn_compatibil.World.{NetworkBuffer}
use free_rtos_tsn_compatibil.Controller.{Stack}

module _ (k : Kernel) where
  -- The two states have the same nodes, and a queue wherever the first has one.
  abbrev Keeps : State k → State k → Type 0
  Keeps st st' =
      ((a : ℕ) → st'.nodes a ≡ st.nodes a)
      × ((a : ℕ) (q : NetworkQueue k)
          → st.queues a ≡ some q
          → (q' : NetworkQueue k) × (st'.queues a ≡ some q'))

  mutual
    Serves-keep :
        {d n : ℕ} {qs : List ℕ} (st st' : State k)
        → Keeps st st'
        → Serves k st d n qs
        → Serves k st' d n qs
    Serves-keep st st' (nodes, queues) (leaf nd s q a b c ne there) =
        let (q', there') = queues nd.queue q there in leaf nd s q' (nodes _ ∙ a) b c ne there'
    Serves-keep st st' (nodes, queues) (through_first nd s child a b c z f g h) =
        through_first nd s child (nodes _ ∙ a) b c z f g (Serves-keep st st' (nodes, queues) h)
    Serves-keep st st' (nodes, queues) (by_priority nd s a b c z f h) =
        by_priority nd s (nodes _ ∙ a) b c z f (ServeAll-keep st st' (nodes, queues) h)

    ServeAll-keep :
        {d rounds i : ℕ} {next qs : List ℕ} (st st' : State k)
        → Keeps st st'
        → ServeAll k st d next rounds i qs
        → ServeAll k st' d next rounds i qs
    ServeAll-keep st st' keeps last = last
    ServeAll-keep st st' keeps (at_child n there h t split) =
        at_child n there (Serves-keep st st' keeps h) (ServeAll-keep st st' keeps t) split

  -- The packets waiting in these queues.
  size : Option (NetworkQueue k) → ℕ
  size none = 0
  size (some q) = length (k.contents q.queue)

  abbrev count : State k → ℕ → ℕ
  count st p = size (st.queues p)

  unfoldable pub total : State k → List ℕ → ℕ
  unfolding size
  total st [] = 0
  total st (p ∷ ps) = count st p + total st ps

  module _ (s : Stack) (buffers : ℕ → Option NetworkBuffer) where
    -- A packet that FreeRTOS_TSN_sendto queues: a transmit event without a message, whose buffer
    -- has an end point with a network interface.
    abbrev pub IsSendable : Item → Type 0
    IsSendable item =
        (item.event_type ≡ network_tx)
        × (item.msgh ≡ 0)
        × ((buf : NetworkBuffer) × (buffers item.buf ≡ some buf)
            × (buf.end_point ≢ 0)
            × (s.interface_of buf.end_point ≢ 0))

    -- The root of the hierarchy serves these queues, and all packets in them can be sent.
    pub record Ready (net : State k) (d : ℕ) (qs : List ℕ) : Type 0 where
      pub rooted : net.root ≢ 0
      pub serves : Serves k net d net.root qs
      pub null_free : net.queues 0 ≡ none
      pub listed : All (λ a. (q : NetworkQueue k) × (net.queues a ≡ some q)) net.queue_list
      pub sendable :
          (a : ℕ) (q : NetworkQueue k)
          → Occurs a qs
          → net.queues a ≡ some q
          → All IsSendable (k.contents q.queue)

    -- A state with one packet less, at the front of one queue.
    pub record Step (net net' : State k) (p : ℕ) (q q' : NetworkQueue k) (item : Item)
        : Type 0 where
      pub same_nodes : (a : ℕ) → net'.nodes a ≡ net.nodes a
      pub same_root : net'.root ≡ net.root
      pub same_list : net'.queue_list ≡ net.queue_list
      pub there : net.queues p ≡ some q
      pub there' : net'.queues p ≡ some q'
      pub others : (a : ℕ) → a ≢ p → net'.queues a ≡ net.queues a
      pub first : k.contents q.queue ≡ item ∷ k.contents q'.queue

    pub same_queue : {q q' : NetworkQueue k} → Option.some q ≡ some q' → q ≡ q'
    same_queue e = cc

    module _ (net net' : State k) (p : ℕ) (q q' : NetworkQueue k) (item : Item)
        (x : Step net net' p q q' item) where
      allocated :
          (a : ℕ) (r : NetworkQueue k)
          → net.queues a ≡ some r
          → (r' : NetworkQueue k) × (net'.queues a ≡ some r')
      allocated a r h = elim (Bool-cases (a == p)) [
        | inl same ↦ (q', ap net'.queues (ground arith) ∙ x.there')
        | inr other ↦ (r, x.others a (ground arith) ∙ h)
      ]

      count-here : count net p ≡ 1 + count net' p
      unfolding size
      count-here =
          ap size x.there ∙ ap length x.first ∙ one_more ∙ ap (λ o. 1 + size o) (sym x.there')
        where
          one_more : length (item ∷ k.contents q'.queue) ≡ 1 + length (k.contents q'.queue)
          one_more = omega arith

      count-other : (a : ℕ) → a ≢ p → count net' a ≡ count net a
      count-other a ne = ap size (x.others a ne)

      count-le : (a : ℕ) → count net' a ≤ count net a
      count-le a = elim (Bool-cases (a == p)) [
        | inl same ↦ let here : a ≡ p = ground arith in rw (here, count-here) (omega arith)
        | inr other ↦ rw (count-other a (ground arith)) (omega arith)
      ]

      pub total-le : (qs : List ℕ) → total net' qs ≤ total net qs
      unfolding total
      total-le [] = omega arith
      total-le (a ∷ qs) = omega (arith, count-le a, total-le qs)

      pub total-Step : (qs : List ℕ) → Occurs p qs → total net' qs < total net qs
      unfolding total
      total-Step [] o = elim o [ ]
      total-Step (a ∷ qs) (inl here) = rw (← here, count-here) (omega (arith, total-le qs))
      total-Step (a ∷ qs) (inr o) = omega (arith, count-le a, total-Step qs o)

      pub Ready-Step : (d : ℕ) (qs : List ℕ) → Ready net d qs → Ready net' d qs
      Ready-Step d qs r = record {
        rooted = rw (x.same_root) r.rooted;
        serves =
            subst (λ n. Serves k net' d n qs) (sym x.same_root)
              (Serves-keep net net' (x.same_nodes, allocated) r.serves);
        null_free = x.others 0 not_null ∙ r.null_free;
        listed =
            rw (x.same_list) (All-imp _ _ net.queue_list (λ a (q, h). allocated a q h) r.listed);
        sendable = still_sendable;
      }
        where
          not_null : 0 ≢ p
          not_null z =
              let h : net.queues p ≡ none = ap net.queues (sym z) ∙ r.null_free in
              let h' = x.there in cc

          still_sendable :
              (a : ℕ) (r' : NetworkQueue k)
              → Occurs a qs
              → net'.queues a ≡ some r'
              → All IsSendable (k.contents r'.queue)
          still_sendable a r' o h = elim (Bool-cases (a == p)) [
            | inl same ↦
                let here : a ≡ p = ground arith in
                let there = r.sendable a q o (ap net.queues here ∙ x.there) in
                let again : q' ≡ r' = same_queue (sym x.there' ∙ ap net'.queues (sym here) ∙ h) in
                let rest : All IsSendable (item ∷ k.contents q'.queue) =
                  subst (All IsSendable) x.first there in
                subst (λ y. All IsSendable (k.contents y.queue)) again (rest.1)
            | inr other ↦ r.sendable a r' o (sym (x.others a (ground arith)) ∙ h)
          ]
