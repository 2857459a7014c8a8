-- ===== src/Controller/Served.antt =====
-- No packet that waits is forgotten by the task of the TSN controller
-- (source/FreeRTOS_TSN_Controller.c).
use mathlib.Core.Path.{subst}
use mathlib.Core.Logic.Or
use mathlib.Core.List.{
  Mem, Mem-prop, not-mem-nil, mem-cons_self, eq-or-mem_of_mem-cons, mem-cons_of_mem,
  mem-append_right,
}
use free_rtos_tsn_compatibil.Prelude.{
  ℕ, ◌<◌, ◌≤◌, ◌≡◌, ap, sym, ◌∙◌, inl, inr, ◌==◌, Bool-cases, Option, some, List, [], ◌∷◌, Occurs,
}
use free_rtos_tsn_compatibil.Kernel.{Kernel, PointerQueues, Item}
use free_rtos_tsn_compatibil.State.{done, NetworkQueue, Config}
use free_rtos_tsn_compatibil.Block.{Env}
use free_rtos_tsn_compatibil.Frame.{Platform}
use free_rtos_tsn_compatibil.World.{NetworkBuffer, World, Effect, output}
use free_rtos_tsn_compatibil.Controller.{Stack}
use free_rtos_tsn_compatibil.Controller.Waiting.{Ready, total}
use free_rtos_tsn_compatibil.Controller.Task.{drain}
use free_rtos_tsn_compatibil.Controller.Order.{of_queue, Sent, drain-order}

module _ (k : Kernel) (e : PointerQueues) (s : Stack) (buffers : ℕ → Option NetworkBuffer) where
  -- The interface of the end point is given the buffer.
  abbrev pub hand_out : NetworkBuffer → Item → Effect
  hand_out buf item = output (s.interface_of buf.end_point) item.buf item.release_after_send

  head-Mem :
      (item first : Item) (buf buf' : NetworkBuffer) (es : List Effect)
      → item ≡ first
      → buffers item.buf ≡ some buf
      → buffers first.buf ≡ some buf'
      → Mem (hand_out buf item) (hand_out buf' first ∷ es)
  head-Mem item first buf buf' es same there there' =
      let equal : Option.some buf ≡ some buf' = sym there ∙ ap (λ i. buffers i.buf) same ∙ there' in
      let equal' : buf ≡ buf' = cc in
      subst (λ x. Mem (hand_out buf item) (x ∷ es))
        (ap (λ i. hand_out buf i) same ∙ ap (λ b. hand_out b first) equal') mem-cons_self

  Sent-Mem :
      (a : ℕ) (item : Item) (buf : NetworkBuffer) (served : List (ℕ × Item)) (es : List Effect)
      → buffers item.buf ≡ some buf
      → Sent k s buffers served es
      → Mem item (of_queue a served)
      → Mem (hand_out buf item) es
  unfolding of_queue Sent
  Sent-Mem a item buf [] es there sent o = elim (not-mem-nil o) [ ]
  Sent-Mem a item buf ((b, first) ∷ served) es there (buf', es', there', now, sent) o =
      let next = Sent-Mem a item buf served es' there sent in
      rw (now) (elim (Bool-cases (b == a)) [
        | inl same ↦
            let o' : Mem item (first ∷ of_queue a served) = rw (same) at o in
            Or.elim Mem-prop (eq-or-mem_of_mem-cons o')
              (λ here. head-Mem item first buf buf' es' here there there')
              (λ later. mem-cons_of_mem (hand_out buf' first) (next later))
        | inr other ↦
            let o' : Mem item (of_queue a served) = rw (other) at o in
            mem-cons_of_mem (hand_out buf' first) (next o')
      ])

module _ (k : Kernel) (e : PointerQueues) (c : Config) (p : Platform) (s : Stack) (depth : ℕ)
    (env : Env) (qs : List ℕ) where
  -- Where the queues that the hierarchy serves can be drained, as in drain_lem: every packet that
  -- waits in one of them, whatever its place and the priority of its queue, is given to the
  -- network interface of its end point before the inner loop of the task ends, which it does.
  pub drain-Mem :
      (rounds : ℕ) (w : World k e) (d a : ℕ) (q : NetworkQueue k) (item : Item)
      (buf : NetworkBuffer)
      → Ready k s w.buffers w.net d qs
      → d ≤ depth
      → total k w.net qs < rounds
      → Occurs a qs
      → w.net.queues a ≡ some q
      → Mem item (k.contents q.queue)
      → w.buffers item.buf ≡ some buf
      → (w' : World k e) × (drain k e c p s rounds depth env w ≡ done w')
        × Mem (hand_out k e s w.buffers buf item) w'.effects
  drain-Mem rounds w d a q item buf ready deep enough o there waits held =
      let (w', served, es, run, each, more, sent) =
        drain-order k e c p s depth env qs rounds w d ready deep enough in
      let found =
        Sent-Mem k e s w.buffers a item buf served es held sent
          (subst (Mem item) (each a q o there) waits) in
      (w', run, subst (Mem _) (sym more) (mem-append_right w.effects found))
