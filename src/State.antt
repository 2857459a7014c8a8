-- ===== src/State.antt =====
-- The shared state of the network scheduler: the structs of
-- source/include/FreeRTOS_TSN_NetworkSchedulerQueue.h and FreeRTOS_TSN_NetworkSchedulerBlock.h on
-- a heap, the global variables of FreeRTOS_TSN_NetworkScheduler.c and
-- FreeRTOS_TSN_NetworkSchedulerBlock.c, and what the kernel keeps for the controller's task.
pub mod Heap
use free_rtos_tsn_compatibil.Prelude.{
  ℕ, ◌%◌, ◌^◌, ◌≡◌, refl, Bool, Option, none, some, List, ◌==◌, if◌then◌else◌,
}
use free_rtos_tsn_compatibil.Kernel.{Kernel}

-- `eQueuePolicy_t`.
pub data QueuePolicy : Type 0 where
  send_recv send_only recv_only ip_task_events : QueuePolicy

-- `NetworkQueue_t`, without the callbacks, which the default configuration leaves out. A name is
-- its bytes up to the terminator; the filter is a function of the project, or NULL.
pub record NetworkQueue (k : Kernel) : Type 0 where
  pub queue : k.Queue
  pub ipv : ℕ
  pub policy : QueuePolicy
  pub name : List ℕ
  pub filter : Option (ℕ → Bool)

-- The attributes of `struct xSCHEDULER_CBS`.
pub record Cbs : Type 0 where
  pub bandwidth : ℕ
  pub max_credit : ℕ
  pub next_activation : ℕ

-- The functions that `fnSelect` and `fnReady` point to; a scheduler whose ready function is
-- `prvCBSReady` is a `struct xSCHEDULER_CBS`.
pub data SelectFunction : Type 0 where
  select_first priority_select : SelectFunction

pub data ReadyFunction : Type 0 where
  always_ready : ReadyFunction
  cbs_ready : Cbs → ReadyFunction

-- `struct xSCHEDULER_GENERIC`, which has one owner, and stands in it.
pub record Scheduler : Type 0 where
  pub size : ℕ
  pub select : SelectFunction
  pub ready : ReadyFunction

-- `NetworkNode_t`.
pub record Node : Type 0 where
  pub num_children : ℕ
  pub scheduler : Option Scheduler
  pub queue : ℕ
  pub next : List ℕ

-- `controller_priority` and `notifications` are the priority and the notification count that the
-- kernel keeps for the task of the TSN controller.
pub record State (k : Kernel) : Type 0 where
  pub queues : ℕ → Option (NetworkQueue k)
  pub nodes : ℕ → Option Node
  pub queue_list : List ℕ
  pub num_queues : ℕ
  pub root : ℕ
  pub next_wakeup : ℕ
  pub controller_priority : ℕ
  pub notifications : ℕ

-- The configuration: `tsnconfigCONTROLLER_HAS_DYNAMIC_PRIO`, `tsnconfigTSN_CONTROLLER_PRIORITY`,
-- and `ipconfigEVENT_QUEUE_LENGTH`.
pub record Config : Type 0 where
  pub has_dynamic_prio : Bool
  pub tsn_controller_priority : ℕ
  pub event_queue_length : ℕ

abbrev pub u32 : ℕ → ℕ
u32 n = n % 2 ^ 32

-- A write to the heap.
abbrev pub update {ℓ} : {A : Type ℓ} → (ℕ → Option A) → ℕ → A → ℕ → Option A
update heap p v q = if p == q then some v else heap q

abbrev pub release {ℓ} : {A : Type ℓ} → (ℕ → Option A) → ℕ → ℕ → Option A
release heap p q = if p == q then none else heap q

-- How a call ends: with a result; with an access through NULL, to freed memory or out of an array,
-- a division by zero or a failed assertion; or with the model's fuel used up.
pub data Run {ℓ} (A : Type ℓ) : Type ℓ where
  done : A → Run A
  fault : Run A
  out_of_fuel : Run A

infixl 5 ◌>>=◌
abbrev pub ◌>>=◌ {ℓ κ} : {A : Type ℓ} {B : Type κ} → Run A → (A → Run B) → Run B
done a >>= f = f a
fault >>= f = fault
out_of_fuel >>= f = out_of_fuel

-- A read of the heap.
abbrev pub deref {ℓ} : {A : Type ℓ} → Option A → Run A
deref none = fault
deref (some a) = done a

-- Inversion of a run that ends with a result.
pub >>=-eq-done {ℓ κ} :
    {A : Type ℓ} {B : Type κ} (m : Run A) (f : A → Run B) {b : B}
    → (m >>= f) ≡ done b
    → (a : A) × (m ≡ done a) × (f a ≡ done b)
>>=-eq-done (done a) f h = (a, refl, h)
>>=-eq-done fault f h = cc
>>=-eq-done out_of_fuel f h = cc
