-- ===== src/Controller/Fate.antt =====
-- The ends of prvDeliverFrame (source/FreeRTOS_TSN_Controller.c) in which FreeRTOS-Plus-TCP is
-- asked to take the network buffer.
use free_rtos_tsn_compatibil.Prelude.{
  ℕ, ◌≤◌, ◌≡◌, refl, ◌⊎◌, inl, inr, Bool, true, false, if◌then◌else◌, none, some, List, [], ◌∷◌,
  ◌++◌, get_elem?_of_lt, length, arith,
}
use free_rtos_tsn_compatibil.Kernel.{Kernel, PointerQueues}
use free_rtos_tsn_compatibil.State.{Run, done, ◌>>=◌, deref}
use free_rtos_tsn_compatibil.Bytes.{copy_out}
use free_rtos_tsn_compatibil.World.{
  NetworkBuffer, World, Effect, released, sent_to_ip_task, processed, note,
}
use free_rtos_tsn_compatibil.Sockets.{find_socket}
use free_rtos_tsn_compatibil.Sockets.Registry.{AreSockets, IsFreePort}
use free_rtos_tsn_compatibil.Controller.{Stack, pass_to_ip_task}

module _ (k : Kernel) (e : PointerQueues) (s : Stack) where
  -- FreeRTOS-Plus-TCP was asked to take the buffer, with this answer.
  abbrev pub Asked : ℕ → Bool → Effect → Type 0
  Asked b ok x = (x ≡ sent_to_ip_task b ok) ⊎ (x ≡ processed b ok)

  -- The buffer was taken over, or it was refused and released, or it was released at once.
  pub data Fate (effects : List Effect) (b : ℕ) (w' : World k e) : Type 0 where
    taken : (x : Effect) → Asked b true x → w'.effects ≡ effects ++ (x ∷ []) → Fate effects b w'
    refused :
        (x : Effect)
        → Asked b false x
        → w'.effects ≡ (effects ++ (x ∷ [])) ++ (released b ∷ [])
        → Fate effects b w'
    rejected : w'.effects ≡ effects ++ (released b ∷ []) → Fate effects b w'

  pub pass-Fate : (w : World k e) (b : ℕ) → Fate w.effects b (pass_to_ip_task k e s w b)
  unfolding pass_to_ip_task
  pass-Fate w b = go (s.ip_task_takes b) refl
    where
      go :
          (ok : Bool)
          → s.ip_task_takes b ≡ ok
          → Fate w.effects b (
              if ok
              then note k e w (sent_to_ip_task b ok)
              else note k e (note k e w (sent_to_ip_task b ok)) (released b))
      go true same = taken (sent_to_ip_task b true) (inl refl) refl
      go false same = refused (sent_to_ip_task b false) (inl refl) refl

  abbrev pub Ends : List Effect → ℕ → Run (World k e) → Type 0
  Ends effects b run = (w' : World k e) × (run ≡ done w') × Fate effects b w'

  pub Ends-if :
      (effects : List Effect) (b : ℕ) (test : Bool) (x y : Run (World k e))
      → Ends effects b x
      → Ends effects b y
      → Ends effects b (if test then x else y)
  Ends-if effects b true x y hx hy = hx
  Ends-if effects b false x y hx hy = hy

  pub find_free :
      (w : World k e) (key : ℕ) (listed : List ℕ)
      → AreSockets k e w listed
      → IsFreePort k e w key listed
      → find_socket k e w key listed ≡ done none
  unfolding find_socket
  find_free w key [] a f = refl
  find_free w key (x ∷ xs) ((t, there), a) (f, fs) =
      let rest = find_free w key xs a fs in let miss = f t there in ground (arith, rest, miss)

  pub process_run :
      (w : World k e) (b : ℕ) (buf : NetworkBuffer) (bytes : List ℕ)
      → w.buffers b ≡ some buf
      → w.memory.bytes buf.ethernet ≡ some bytes
      → 38 ≤ length bytes
      → Ends w.effects b (
          deref (w.buffers b) >>= λ buf. deref (w.memory.bytes buf.ethernet) >>= λ bytes.
          copy_out 36 2 bytes >>= λ port. done (
            if s.process b
            then note k e w (processed b (s.process b))
            else note k e (note k e w (processed b (s.process b))) (released b)))
  unfolding copy_out
  process_run w b buf bytes there held room =
      let (x, first) = get_elem?_of_lt bytes 36 (omega arith) in
      let (y, second) = get_elem?_of_lt bytes 37 (omega arith) in
      rw (there, held, first, second) (go (s.process b))
    where
      go :
          (ok : Bool)
          → Ends w.effects b (
              done (
                if ok
                then note k e w (processed b ok)
                else note k e (note k e w (processed b ok)) (released b)))
      go true = (_, refl, taken (processed b true) (inr refl) refl)
      go false = (_, refl, refused (processed b false) (inr refl) refl)
