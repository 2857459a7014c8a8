-- ===== src/Wrapper/Interface/Once.antt =====
-- The layer is initialised with the first network interface, and with no other
-- (source/portable/NetworkInterface/Common/NetworkWrapper.c).
use mathlib.Core.List.{append_assoc, append-nil}
use free_rtos_tsn_compatibil.Prelude.{
  ℕ, ◌≡◌, ◌≢◌, refl, sym, ◌∙◌, inl, inr, ◌==◌, ==-of-≢, ==-same, Bool-cases, true, false, Option,
  some, List, [], ◌∷◌, ◌++◌, map, All, All-imp,
}
use free_rtos_tsn_compatibil.Kernel.{Kernel, PointerQueues}
use free_rtos_tsn_compatibil.State.{Config, State, done, update}
use free_rtos_tsn_compatibil.Priority.{task_base_prio}
use free_rtos_tsn_compatibil.World.{World}
use free_rtos_tsn_compatibil.Sockets.{initialise_sockets}
use free_rtos_tsn_compatibil.Wrapper.Output.{InterfaceConfig}
use free_rtos_tsn_compatibil.Wrapper.Interface.{
  tsn_initialise, tsn_output, tsn_link_status, Interface, Project, Layer, Call,
  controller_initialise, initialise_once, fill_interface_descriptor, fill_all,
}

module _ (k : Kernel) (e : PointerQueues) where
  -- The structs that a call gets are allocated.
  abbrev pub IsAllocated : Layer k e → Call → Type 0
  IsAllocated l call =
      ((i : Interface) × (l.interfaces call.interface ≡ some i))
      × ((config : InterfaceConfig) × (l.configs call.config ≡ some config))

  -- The interface has the functions of this layer, and the shared name.
  abbrev pub IsFilled : Layer k e → ℕ → Type 0
  IsFilled l a =
      (i : Interface) × (l.interfaces a ≡ some i)
      × (i.has_name ≡ true)
      × (i.initialise ≡ tsn_initialise)
      × (i.output ≡ tsn_output)
      × (i.link_status ≡ tsn_link_status)

  abbrev pub interface_of : Call → ℕ
  interface_of call = call.interface

  -- The interface and the configuration that a call writes.
  abbrev filled_interface : Call → Interface
  filled_interface call = record {
    has_name = true;
    argument = call.config;
    initialise = tsn_initialise;
    output = tsn_output;
    link_status = tsn_link_status;
  }

  abbrev filled_config : InterfaceConfig → Call → InterfaceConfig
  filled_config config call = record config { emac_index = call.index; num_tags = 0; vlan_tag = 0 }

  -- The layer with them.
  abbrev written : Layer k e → Call → InterfaceConfig → List ℕ → Layer k e
  written l call config name = record l {
    name = name;
    interfaces = update l.interfaces call.interface (filled_interface call);
    configs = update l.configs call.config (filled_config config call);
  }

  kept {ℓ} :
      {A : Type ℓ} (heap : ℕ → Option A) (at a : ℕ) (v : A)
      → ((old : A) × (heap a ≡ some old))
      → (new : A) × (update heap at v a ≡ some new)
  kept heap at a v (old, there) = elim (Bool-cases (at == a)) [
    | inl here ↦ (v, rw (here) refl)
    | inr other ↦ (old, rw (other) there)
  ]

  written-IsAllocated :
      (l : Layer k e) (call : Call) (config : InterfaceConfig) (name : List ℕ) (other : Call)
      → IsAllocated l other
      → IsAllocated (written l call config name) other
  written-IsAllocated l call config name other (i, cfg) = (
    kept l.interfaces call.interface other.interface _ i,
    kept l.configs call.config other.config _ cfg,
  )

  written-IsFilled :
      (l : Layer k e) (call : Call) (config : InterfaceConfig) (name : List ℕ) (a : ℕ)
      → IsFilled l a
      → IsFilled (written l call config name) a
  written-IsFilled l call config name a (i, there, r1, r2, r3, r4) =
      elim (Bool-cases (call.interface == a)) [
        | inl here ↦ (filled_interface call, rw (here) refl, refl, refl, refl, refl)
        | inr other ↦ (i, rw (other) there, r1, r2, r3, r4)
      ]

  here-IsFilled :
      (l : Layer k e) (call : Call) (config : InterfaceConfig) (name : List ℕ)
      → IsFilled (written l call config name) call.interface
  here-IsFilled l call config name =
      (filled_interface call, rw (==-same call.interface) refl, refl, refl, refl, refl)

  module _ (c : Config) (x : Project k) where
    -- What one call does, given what the initialisation does.
    fill_run :
        (l l' : Layer k e) (call : Call) (old : Interface) (config : InterfaceConfig)
        → l.interfaces call.interface ≡ some old
        → l.configs call.config ≡ some config
        → initialise_once k e c x (written l call config (x.print_name call.index)) ≡ done l'
        → fill_interface_descriptor k e c x l call
          ≡ done (record l' { added = l'.added ++ (call.interface ∷ []) })
    unfolding fill_interface_descriptor
    fill_run l l' call old config there below run = rw (there, below, run) refl

    initialised_run : (l : Layer k e) → l.initialised ≡ true → initialise_once k e c x l ≡ done l
    unfolding initialise_once
    initialised_run l on = rw (on) refl

    -- The layer after calls that initialise nothing.
    pub record Extended (l l' : Layer k e) (calls : List Call) : Type 0 where
      pub same_world : l'.world ≡ l.world
      pub same_timebase : l'.timebase ≡ l.timebase
      pub same_controller : l'.controller ≡ l.controller
      pub same_tasks : l'.tasks ≡ l.tasks
      pub still : l'.initialised ≡ l.initialised
      pub added : l'.added ≡ l.added ++ map interface_of calls
      pub filled : All (λ call. IsFilled l' call.interface) calls
      pub older : (a : ℕ) → IsFilled l a → IsFilled l' a

    fill_all-Extended :
        (calls : List Call) (l : Layer k e)
        → l.initialised ≡ true
        → All (IsAllocated l) calls
        → (l' : Layer k e) × (fill_all k e c x l calls ≡ done l') × Extended l l' calls
    unfolding fill_all
    fill_all-Extended [] l on a = (
      l,
      refl,
      record {
        same_world = refl;
        same_timebase = refl;
        same_controller = refl;
        same_tasks = refl;
        still = refl;
        added = sym (append-nil l.added);
        filled = tt;
        older = λ a h. h;
      },
    )
    fill_all-Extended (call ∷ calls) l on (((old, there), (config, below)), rest) =
        let name = x.print_name call.index in
        let l1 = written l call config name in
        let run1 = fill_run l l1 call old config there below (initialised_run l1 on) in
        let l2 = record l1 { added = l.added ++ (call.interface ∷ []) } in
        let (l', run, y) = fill_all-Extended calls l2 on (
          All-imp (IsAllocated l) (IsAllocated l2) calls
            (λ other h. written-IsAllocated l call config name other h) rest) in
        (
          l',
          rw (run1) run,
          record {
            same_world = y.same_world;
            same_timebase = y.same_timebase;
            same_controller = y.same_controller;
            same_tasks = y.same_tasks;
            still = y.still;
            added = y.added ∙ append_assoc l.added (call.interface ∷ []) (map interface_of calls);
            filled = (y.older call.interface (here-IsFilled l call config name), y.filled);
            older = λ a h. y.older a (written-IsFilled l call config name a h);
          },
        )

    -- The world after the initialisation.
    abbrev pub started : World k e → State k → World k e
    started w net =
        initialise_sockets k e
          (record w { net = record net { controller_priority = task_base_prio c } })

    first_run :
        (l : Layer k e) (net : State k)
        → l.initialised ≡ false
        → l.controller ≡ 0
        → x.created ≢ 0
        → x.queue_init l.world.net ≡ done net
        → initialise_once k e c x l
          ≡ done (record l {
            world = started l.world net;
            timebase = x.timebase_init l.timebase;
            controller = x.created;
            tasks = l.tasks ++ (task_base_prio c ∷ []);
            initialised = true;
          })
    unfolding initialise_once controller_initialise
    first_run l net off none_yet made queues =
        rw (off, queues, none_yet, ==-of-≢ x.created 0 made) refl

    -- Before the layer is initialised and has a task, with interfaces and configurations that are
    -- allocated, where vNetworkQueueInit ends without a fault and xTaskCreate succeeds: any number
    -- of calls of pxTSN_FillInterfaceDescriptor, at least one, end without a fault, and the
    -- queues, the task of the controller with its base priority, the list of TSN sockets and the
    -- timebase are initialised once, by the first call. The interfaces are added in the order of
    -- the calls, and each has the functions of this layer and the shared name.
    pub fill_all-Once :
        (l : Layer k e) (net : State k) (call : Call) (calls : List Call)
        → l.initialised ≡ false
        → l.controller ≡ 0
        → x.created ≢ 0
        → x.queue_init l.world.net ≡ done net
        → All (IsAllocated l) (call ∷ calls)
        → (l' : Layer k e) × (fill_all k e c x l (call ∷ calls) ≡ done l')
          × (l'.world ≡ started l.world net)
          × (l'.timebase ≡ x.timebase_init l.timebase)
          × (l'.controller ≡ x.created)
          × (l'.tasks ≡ l.tasks ++ (task_base_prio c ∷ []))
          × (l'.initialised ≡ true)
          × (l'.added ≡ l.added ++ map interface_of (call ∷ calls))
          × All (λ other. IsFilled l' other.interface) (call ∷ calls)
    unfolding fill_all
    fill_all-Once l net call calls off none_yet made queues
          (((old, there), (config, below)), rest) =
        let name = x.print_name call.index in
        let l1 = written l call config name in
        let l2 = record l1 {
          world = started l.world net;
          timebase = x.timebase_init l.timebase;
          controller = x.created;
          tasks = l.tasks ++ (task_base_prio c ∷ []);
          initialised = true;
        } in
        let run1 =
          fill_run l l2 call old config there below (first_run l1 net off none_yet made queues) in
        let l3 = record l2 { added = l.added ++ (call.interface ∷ []) } in
        let (l', run, y) = fill_all-Extended calls l3 refl (
          All-imp (IsAllocated l) (IsAllocated l3) calls
            (λ other h. written-IsAllocated l call config name other h) rest) in
        (
          l',
          rw (run1) run,
          y.same_world,
          y.same_timebase,
          y.same_controller,
          y.same_tasks,
          y.still,
          y.added ∙ append_assoc l.added (call.interface ∷ []) (map interface_of calls),
          (y.older call.interface (here-IsFilled l call config name), y.filled),
        )
