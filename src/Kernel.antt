-- ===== src/Kernel.antt =====
-- What the repository takes from FreeRTOS and FreeRTOS-Plus-TCP, whose code is not in it: the
-- queues of the kernel and the tick conversion, with the behaviour that their documentation states
-- for a call during which no other task touches the queue. Also the data that goes through them.
use free_rtos_tsn_compatibil.Prelude.{
  ℕ, ◌≡◌, Bool, true, false, Option, none, some, List, [], ◌∷◌, ◌++◌, length, get_elem?,
}

-- `eIPEvent_t` of FreeRTOS-Plus-TCP: the two events that the code tells apart, and the others.
pub data EventType : Type 0 where
  network_tx network_rx : EventType
  other_event : ℕ → EventType

-- `NetworkQueueItem_t`. A pointer is an address, and 0 is NULL.
pub record Item : Type 0 where
  pub event_type : EventType
  pub buf : ℕ
  pub msgh : ℕ
  pub release_after_send : Bool

pub record Kernel : Type 1 where
  -- A queue object of the kernel that holds items, behind its `QueueHandle_t`.
  pub Queue : Type 0
  pub contents : Queue → List Item
  -- `xQueueCreate`, given the length.
  pub create : ℕ → Option Queue
  -- `xQueueSendToBack`, `xQueueReceive` (with the ticks to wait), `xQueuePeek` (which does not
  -- wait) and `uxQueueMessagesWaiting`.
  pub send_to_back : Queue → Item → ℕ → Queue × Bool
  pub receive : Queue → ℕ → Queue × Option Item
  pub peek : Queue → Option Item
  pub messages_waiting : Queue → ℕ
  -- `pdMS_TO_TICKS` and `portMAX_DELAY`.
  pub ms_to_ticks : ℕ → ℕ
  pub max_delay : ℕ
  pub create_empty : (n : ℕ) (q : Queue) → create n ≡ some q → contents q ≡ []
  pub send_done :
      (q : Queue) (x : Item) (t : ℕ)
      → (send_to_back q x t).1 ≡ true
      → contents (send_to_back q x t).0 ≡ contents q ++ (x ∷ [])
  pub send_full :
      (q : Queue) (x : Item) (t : ℕ) → (send_to_back q x t).1 ≡ false → (send_to_back q x t).0 ≡ q
  pub receive_done :
      (q : Queue) (t : ℕ) (x : Item)
      → (receive q t).1 ≡ some x
      → contents q ≡ x ∷ contents (receive q t).0
  pub receive_empty :
      (q : Queue) (t : ℕ) → (receive q t).1 ≡ none → (contents q ≡ []) × ((receive q t).0 ≡ q)
  pub peek_head : (q : Queue) → peek q ≡ get_elem? (contents q) 0
  pub waiting_length : (q : Queue) → messages_waiting q ≡ length (contents q)

-- The queues of the kernel that hold pointers: `xQueueCreate`, `xQueueSend`, `xQueueReceive`, each
-- with the ticks to wait, and `xQueueReset`.
pub record PointerQueues : Type 1 where
  pub Queue : Type 0
  pub contents : Queue → List ℕ
  pub create : ℕ → Option Queue
  pub send : Queue → ℕ → ℕ → Queue × Bool
  pub receive : Queue → ℕ → Queue × Option ℕ
  pub reset : Queue → Queue
  pub create_empty : (n : ℕ) (q : Queue) → create n ≡ some q → contents q ≡ []
  pub send_done :
      (q : Queue) (x t : ℕ)
      → (send q x t).1 ≡ true
      → contents (send q x t).0 ≡ contents q ++ (x ∷ [])
  pub send_full : (q : Queue) (x t : ℕ) → (send q x t).1 ≡ false → (send q x t).0 ≡ q
  pub receive_done :
      (q : Queue) (t x : ℕ) → (receive q t).1 ≡ some x → contents q ≡ x ∷ contents (receive q t).0
  pub receive_empty :
      (q : Queue) (t : ℕ) → (receive q t).1 ≡ none → (contents q ≡ []) × ((receive q t).0 ≡ q)
  pub reset_empty : (q : Queue) → contents (reset q) ≡ []
