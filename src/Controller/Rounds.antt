-- ===== src/Controller/Rounds.antt =====
-- One round of the inner loop of the task of the TSN controller (source/FreeRTOS_TSN_Controller.c)
-- that sends a packet.
use mathlib.Core.Path.{subst}
use free_rtos_tsn_compatibil.Prelude.{
  ℕ, ◌≡◌, ◌≢◌, refl, ap, ◌∙◌, inl, inr, Bool, true, false, Bool-cases, ==-of-≢, Option, none, some,
  List, [], ◌∷◌, ◌++◌, length, All, Occurs, arith,
}
use free_rtos_tsn_compatibil.Kernel.{Kernel, PointerQueues, Item}
use free_rtos_tsn_compatibil.State.{NetworkQueue, Config, State, done}
use free_rtos_tsn_compatibil.Priority.{is_empty}
use free_rtos_tsn_compatibil.Priority.Maximum.{compute_priority_lem}
use free_rtos_tsn_compatibil.Scheduler.{pop}
use free_rtos_tsn_compatibil.Scheduler.Insertion.{Popped, pop_lem}
use free_rtos_tsn_compatibil.Block.{Env, schedule}
use free_rtos_tsn_compatibil.Block.Hierarchy.{IsFirst}
use free_rtos_tsn_compatibil.Frame.{Platform}
use free_rtos_tsn_compatibil.World.{NetworkBuffer, World, output, note}
use free_rtos_tsn_compatibil.Controller.{Stack}
use free_rtos_tsn_compatibil.Controller.Task.{
  is_ip_task_events, transmit, handle, lower_priority, round,
}
use free_rtos_tsn_compatibil.Controller.Waiting.{IsSendable, Ready, Step, Ready-Step}

pub Occurs-middle : (a : ℕ) (xs ys : List ℕ) → Occurs a (xs ++ (a ∷ ys))
Occurs-middle a [] ys = inl refl
Occurs-middle a (x ∷ xs) ys = inr (Occurs-middle a xs ys)

module _ (k : Kernel) where
  module _ (e : PointerQueues) (c : Config) (p : Platform) (s : Stack) (depth : ℕ) (env : Env) where
    round_run :
        (w w3 w4 : World k e) (a : ℕ) (q : NetworkQueue k) (net' : State k) (item : Item)
        → schedule k depth env w.net ≡ done (w.net, a)
        → a ≢ 0
        → w.net.queues a ≡ some q
        → pop k w.net a 0 ≡ done (net', some item)
        → handle k e c p s (record w { net = net' }) item (is_ip_task_events q.policy) ≡ done w3
        → lower_priority k e c p s w3 a ≡ done w4
        → round k e c p s depth env w ≡ done (w4, true)
    unfolding round
    round_run w w3 w4 a q net' item scheduled ne there popped handled lowered =
        rw (scheduled, ==-of-≢ a 0 ne, there, popped, handled, lowered) refl

    handle_lem :
        (w : World k e) (item : Item) (policy : Bool)
        → IsSendable k s w.buffers item
        → (buf : NetworkBuffer) × (w.buffers item.buf ≡ some buf)
          × (handle k e c p s w item policy
              ≡ done (
                  note k e w
                    (output (s.interface_of buf.end_point) item.buf item.release_after_send)))
    unfolding handle transmit
    handle_lem w item policy (tx, no_message, (buf, there, rooted, connected)) = (
      buf,
      there,
      rw
          (
            tx,
            there,
            ==-of-≢ buf.end_point 0 rooted,
            no_message,
            ==-of-≢ (s.interface_of buf.end_point) 0 connected,
          )
          refl,
    )

    lower_priority_lem :
        (w : World k e) (a : ℕ) (q : NetworkQueue k)
        → w.net.queues a ≡ some q
        → All (λ b. (r : NetworkQueue k) × (w.net.queues b ≡ some r)) w.net.queue_list
        → (m : ℕ) × (lower_priority k e c p s w a
            ≡ done (record w { net = record (w.net) { controller_priority = m } }))
    unfolding lower_priority
    lower_priority_lem w a q there listed = elim (Bool-cases c.has_dynamic_prio) [
      | inl dynamic ↦ elim (Bool-cases (is_empty k q)) [
        | inl empty ↦
            let (m, run, top) = compute_priority_lem k w.net c listed in
            (m, simp (dynamic, there, empty, run))
        | inr waiting ↦ (w.net.controller_priority, simp (dynamic, there, waiting))
      ]
      | inr fixed ↦ (w.net.controller_priority, simp (fixed))
    ]

    -- A round that sends the packet at the front of the first of these queues that has packets.
    pub record Round (w w' : World k e) (qs : List ℕ) (a : ℕ) (item : Item) : Type 0 where
      pub queue : NetworkQueue k
      pub queue' : NetworkQueue k
      pub buffer : NetworkBuffer
      pub chosen : IsFirst k w.net qs a
      pub step : Step k s w.buffers w.net w'.net a queue queue' item
      pub there : w.buffers item.buf ≡ some buffer
      pub same_buffers : w'.buffers ≡ w.buffers
      pub sent :
          w'.effects
          ≡ w.effects
            ++ (output (s.interface_of buffer.end_point) item.buf item.release_after_send ∷ [])

    busy : (q : NetworkQueue k) → is_empty k q ≡ false → k.messages_waiting q.queue ≡ 0 → ⊥
    unfolding is_empty
    busy q waiting none_left = ground arith

    pub served_round :
        (w : World k e) (qs : List ℕ) (d : ℕ) (a : ℕ)
        → schedule k depth env w.net ≡ done (w.net, a)
        → IsFirst k w.net qs a
        → Ready k s w.buffers w.net d qs
        → (w' : World k e) × (item : Item) × (round k e c p s depth env w ≡ done (w', true))
          × Round w w' qs a item
    served_round w qs d a scheduled f ready =
        let (net', popped, run, after) = pop_lem k w.net a f.queue 0 f.there in
        go net' popped run after
      where
        not_null : a ≢ 0
        not_null z =
            let h : w.net.queues a ≡ none = ap w.net.queues z ∙ ready.null_free in
            let h' = f.there in cc

        go :
            (net' : State k) (popped : Option Item)
            → pop k w.net a 0 ≡ done (net', popped)
            → Popped k w.net a f.queue net' popped
            → (w' : World k e) × (item : Item) × (round k e c p s depth env w ≡ done (w', true))
              × Round w w' qs a item
        go net' none run (same, empty) =
            let waiting = f.waiting in
            let counted = k.waiting_length f.queue.queue in
            elim (busy f.queue waiting (counted ∙ ap length empty)) [ ]
        go net' (some item) run (others, same, (q', there', ipv, first)) =
            let step : Step k s w.buffers w.net net' a f.queue q' item = record {
              same_nodes = λ b. ap (λ st. st.nodes b) same;
              same_root = ap (λ st. st.root) same;
              same_list = ap (λ st. st.queue_list) same;
              there = f.there;
              there' = there';
              others = others;
              first = first;
            } in
            let ready' = Ready-Step k s w.buffers w.net net' a f.queue q' item step d qs ready in
            let (sendable, rest) = subst (All (IsSendable k s w.buffers)) first (
              ready.sendable a f.queue (rw (f.split) (Occurs-middle a f.before f.after)) f.there) in
            let (buffer, there, handled) =
              handle_lem (record w { net = net' }) item (is_ip_task_events f.queue.policy)
                sendable in
            let (m, lowered) =
              lower_priority_lem
                (note k e (record w { net = net' })
                  (output (s.interface_of buffer.end_point) item.buf item.release_after_send))
                a q' there' ready'.listed in
            (
              record w {
                net = record net' { controller_priority = m };
                effects =
                    w.effects
                    ++ (output (s.interface_of buffer.end_point) item.buf item.release_after_send
                        ∷ []);
              },
              item,
              round_run w _ _ a f.queue net' item scheduled not_null f.there run handled lowered,
              record {
                queue = f.queue;
                queue' = q';
                buffer = buffer;
                chosen = f;
                step = record {
                  same_nodes = step.same_nodes;
                  same_root = step.same_root;
                  same_list = step.same_list;
                  there = f.there;
                  there' = there';
                  others = others;
                  first = first;
                };
                there = there;
                same_buffers = refl;
                sent = refl;
              },
            )
