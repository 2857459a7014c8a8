-- ===== src/Controller/Order.antt =====
-- The order in which the task of the TSN controller (source/FreeRTOS_TSN_Controller.c) sends the
-- packets of a queue.
use mathlib.Core.Path.{subst}
use mathlib.Core.List.{append_assoc, append-nil}
use free_rtos_tsn_compatibil.Prelude.{
  ℕ, ◌<◌, ◌≤◌, ◌≡◌, refl, ap, sym, ◌∙◌, inl, inr, true, ◌==◌, if◌then◌else◌, Bool-cases, Option,
  some, List, [], ◌∷◌, ◌++◌, length, All, Occurs, arith,
}
use free_rtos_tsn_compatibil.Kernel.{Kernel, PointerQueues, Item}
use free_rtos_tsn_compatibil.State.{done, NetworkQueue, Config}
use free_rtos_tsn_compatibil.Priority.{is_empty}
use free_rtos_tsn_compatibil.Block.{Env}
use free_rtos_tsn_compatibil.Frame.{Platform}
use free_rtos_tsn_compatibil.World.{NetworkBuffer, World, Effect, output}
use free_rtos_tsn_compatibil.Controller.{Stack}
use free_rtos_tsn_compatibil.Controller.Waiting.{Ready, total, same_queue}
use free_rtos_tsn_compatibil.Controller.Task.{drain}
use free_rtos_tsn_compatibil.Controller.Drains.{Transmits, finish, again, drain_lem}

-- The items of a queue, in a sequence of items with their queues.
unfoldable pub of_queue : ℕ → List (ℕ × Item) → List Item
of_queue p [] = []
of_queue p ((a, item) ∷ served) = if a == p then item ∷ of_queue p served else of_queue p served

at-Occurs : (P : ℕ → Type 0) (a : ℕ) (xs : List ℕ) → Occurs a xs → All P xs → P a
at-Occurs P a [] o h = elim o [ ]
at-Occurs P a (x ∷ xs) (inl here) (h, hs) = subst P (sym here) h
at-Occurs P a (x ∷ xs) (inr o) (h, hs) = at-Occurs P a xs o hs

module _ (k : Kernel) where
  idle_empty : (q : NetworkQueue k) → is_empty k q ≡ true → k.contents q.queue ≡ []
  unfolding is_empty
  idle_empty q idle =
      go (k.contents q.queue) (omega (arith, k.waiting_length q.queue, zero_waiting))
    where
      zero_waiting : k.messages_waiting q.queue ≡ 0
      zero_waiting = ground arith

      go : (items : List Item) → length items ≡ 0 → items ≡ []
      go [] h = refl
      go (x ∷ items) h = let never : ⊥ = omega arith in elim never [ ]

  module _ (s : Stack) (buffers : ℕ → Option NetworkBuffer) where
    -- The interfaces of these items' buffers were given them, in this order.
    unfoldable pub Sent : List (ℕ × Item) → List Effect → Type 0
    Sent [] es = es ≡ []
    Sent ((p, item) ∷ served) es =
        (buf : NetworkBuffer) × (es' : List Effect) × (buffers item.buf ≡ some buf)
        × (es ≡ output (s.interface_of buf.end_point) item.buf item.release_after_send ∷ es')
        × Sent served es'

  module _ (e : PointerQueues) (c : Config) (p : Platform) (s : Stack) (depth : ℕ) (env : Env)
      (qs : List ℕ) where
    queue_order :
        {w w' : World k e} {served : List (ℕ × Item)} (a : ℕ) (q : NetworkQueue k)
        → Transmits k e c p s depth env qs w served w'
        → Occurs a qs
        → w.net.queues a ≡ some q
        → k.contents q.queue ≡ of_queue a served
    unfolding of_queue
    queue_order a q (finish idle) o there = idle_empty q (at-Occurs _ a qs o idle q there)
    queue_order {w = w} a q (again {a = b} {item = item} {served = served} r t) o there =
        elim (Bool-cases (b == a)) [
          | inl same ↦
              let here : a ≡ b = ground arith in
              let again' = queue_order a r.queue' t o (rw (here) r.step.there') in
              let equal : q ≡ r.queue =
                same_queue k s w.buffers (sym there ∙ ap w.net.queues here ∙ r.step.there) in
              let first : k.contents q.queue ≡ item ∷ of_queue a served =
                ap (λ x. k.contents x.queue) equal ∙ r.step.first ∙ ap (λ x. item ∷ x) again' in
              rw (same) first
          | inr other ↦
              let again' = queue_order a q t o (r.step.others a (ground arith) ∙ there) in
              rw (other) again'
        ]

    Transmits-Sent :
        {w w' : World k e} {served : List (ℕ × Item)} (buffers : ℕ → Option NetworkBuffer)
        → w.buffers ≡ buffers
        → Transmits k e c p s depth env qs w served w'
        → (es : List Effect) × (w'.effects ≡ w.effects ++ es)
          × Sent s buffers served es
          × (w'.buffers ≡ buffers)
    unfolding Sent
    Transmits-Sent {w = w} buffers same (finish idle) = ([], sym (append-nil w.effects), refl, same)
    Transmits-Sent {w = w} {w' = w'} buffers same (again {item = item} r t) =
        let (es, more, sent, same') = Transmits-Sent buffers (r.same_buffers ∙ same) t in
        let x = output (s.interface_of r.buffer.end_point) item.buf item.release_after_send in
        (
          x ∷ es,
          more ∙ ap (λ l. l ++ es) r.sent ∙ append_assoc w.effects (x ∷ []) es,
          (r.buffer, es, ap (λ f. f item.buf) (sym same) ∙ r.there, refl, sent),
          same',
        )

    pub drain-order :
        (rounds : ℕ) (w : World k e) (d : ℕ)
        → Ready k s w.buffers w.net d qs
        → d ≤ depth
        → total k w.net qs < rounds
        → (w' : World k e) × (served : List (ℕ × Item)) × (es : List Effect) × (drain k e c p s
              rounds depth env w
            ≡ done w')
          × ((a : ℕ) (q : NetworkQueue k)
              → Occurs a qs
              → w.net.queues a ≡ some q
              → k.contents q.queue ≡ of_queue a served)
          × (w'.effects ≡ w.effects ++ es)
          × Sent s w.buffers served es
    drain-order rounds w d ready deep enough =
        let (w', served, run, t) = drain_lem k e c p s depth env rounds w d qs ready deep enough in
        let (es, more, sent, same) = Transmits-Sent w.buffers refl t in
        (w', served, es, run, (λ a q o there. queue_order a q t o there), more, sent)
