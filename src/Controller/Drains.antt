-- ===== src/Controller/Drains.antt =====
-- The inner loop of the task of the TSN controller (source/FreeRTOS_TSN_Controller.c) ends, and
-- what it has sent then.
use mathlib.Core.Path.{subst}
use free_rtos_tsn_compatibil.Prelude.{
  ℕ, zero, suc, ◌≤◌, ◌<◌, ◌≡◌, refl, sym, inl, inr, true, List, [], ◌∷◌, All, Occurs, arith,
}
use free_rtos_tsn_compatibil.Kernel.{Kernel, PointerQueues, Item}
use free_rtos_tsn_compatibil.State.{Config, done}
use free_rtos_tsn_compatibil.Block.{Env, schedule}
use free_rtos_tsn_compatibil.Block.Hierarchy.{IsIdle, schedule_lem}
use free_rtos_tsn_compatibil.Frame.{Platform}
use free_rtos_tsn_compatibil.World.{World}
use free_rtos_tsn_compatibil.Controller.{Stack}
use free_rtos_tsn_compatibil.Controller.Task.{round, drain}
use free_rtos_tsn_compatibil.Controller.Waiting.{total, Ready, total-Step, Ready-Step}
use free_rtos_tsn_compatibil.Controller.Rounds.{Occurs-middle, Round, served_round}

module _ (k : Kernel) where
  module _ (e : PointerQueues) (c : Config) (p : Platform) (s : Stack) (depth : ℕ) (env : Env) where
    -- The rounds up to one that finds all of these queues empty, with what they send and the
    -- queues that it stood in.
    pub data Transmits (qs : List ℕ) : World k e → List (ℕ × Item) → World k e → Type 0 where
      finish : {w : World k e} → All (IsIdle k w.net) qs → Transmits qs w [] w
      again :
          {w w1 w' : World k e} {a : ℕ} {item : Item} {served : List (ℕ × Item)}
          → Round k e c p s depth env w w1 qs a item
          → Transmits qs w1 served w'
          → Transmits qs w ((a, item) ∷ served) w'

    drain_next :
        (rounds : ℕ) (w w1 w' : World k e)
        → round k e c p s depth env w ≡ done (w1, true)
        → drain k e c p s rounds depth env w1 ≡ done w'
        → drain k e c p s (suc rounds) depth env w ≡ done w'
    unfolding drain
    drain_next rounds w w1 w' run rest = rw (run) rest

    drain_last :
        (rounds : ℕ) (w : World k e)
        → schedule k depth env w.net ≡ done (w.net, 0)
        → drain k e c p s (suc rounds) depth env w ≡ done w
    unfolding drain round
    drain_last rounds w scheduled = rw (scheduled) refl

    -- If the root of the scheduler is a hierarchy of always-ready nodes and the packets in the
    -- queues that it serves are transmit events that can be sent, then the inner loop of the task
    -- ends, after at most one round more than there are packets. Each of its rounds but the last
    -- gives the interface the packet at the front of the first queue, in the order of the
    -- hierarchy, that has packets then; the last finds every queue that is served empty.
    pub drain_lem :
        (rounds : ℕ) (w : World k e) (d : ℕ) (qs : List ℕ)
        → Ready k s w.buffers w.net d qs
        → d ≤ depth
        → total k w.net qs < rounds
        → (w' : World k e) × (served : List (ℕ × Item)) × (drain k e c p s rounds depth env w
            ≡ done w')
          × Transmits qs w served w'
    drain_lem zero w d qs ready deep enough = let never : ⊥ = omega arith in elim never [ ]
    drain_lem (suc rounds) w d qs ready deep enough =
        let (a, scheduled, cases) =
          schedule_lem k w.net env depth ready.rooted ready.serves ready.null_free deep in
        elim cases [
          | inl (null, idle) ↦ (
            w,
            [],
            drain_last rounds w
                (subst (λ x. schedule k depth env w.net ≡ done (w.net, x)) null scheduled),
            finish idle,
          )
          | inr first ↦
              let (w1, item, run, sent) =
                served_round k e c p s depth env w qs d a scheduled first ready in
              let ready1 =
                Ready-Step k s w.buffers w.net w1.net a sent.queue sent.queue' item sent.step d qs
                  ready in
              let fewer =
                total-Step k s w.buffers w.net w1.net a sent.queue sent.queue' item sent.step qs
                  (subst (Occurs a) (sym first.split) (Occurs-middle a first.before first.after)) in
              let (w', served, rest, transmits) =
                drain_lem rounds w1 d qs
                  (subst (λ b. Ready k s b w1.net d qs) (sym sent.same_buffers) ready1) deep
                  (omega (arith, fewer)) in
              (w', (a, item) ∷ served, drain_next rounds w w1 w' run rest, again sent transmits)
        ]
