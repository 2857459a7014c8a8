-- ===== src/Wrapper/Interface.antt =====
-- source/portable/NetworkInterface/Common/NetworkWrapper.c: the network interfaces, and the
-- initialisation of the layer with the first of them. vNetworkQueueInit and vTimebaseInit are the
-- project's, snprintf is the C library's, and FreeRTOS_AddNetworkInterface is of
-- FreeRTOS-Plus-TCP.
pub mod Once
use free_rtos_tsn_compatibil.Prelude.{
  ℕ, Bool, true, false, ◌==◌, if◌then◌else◌, Option, List, [], ◌∷◌, ◌++◌,
}
use free_rtos_tsn_compatibil.Kernel.{Kernel, PointerQueues}
use free_rtos_tsn_compatibil.State.{Config, State, Run, done, ◌>>=◌, deref, update}
use free_rtos_tsn_compatibil.Priority.{task_base_prio}
use free_rtos_tsn_compatibil.Timebase.Handle.{Timebase}
use free_rtos_tsn_compatibil.World.{World}
use free_rtos_tsn_compatibil.Sockets.{initialise_sockets}
use free_rtos_tsn_compatibil.Wrapper.Output.{InterfaceConfig}

-- The driver, by its functions on an interface.
pub record Driver : Type 0 where
  pub initialise : ℕ → Bool
  pub link_status : ℕ → Bool

-- `xTSN_NetworkInterfaceInitialise` and `xTSN_GetPhyLinkStatus`.
unfoldable pub interface_initialise : Driver → ℕ → Bool
interface_initialise driver interface = driver.initialise interface

unfoldable pub get_phy_link_status : Driver → ℕ → Bool
get_phy_link_status driver interface = driver.link_status interface

-- The functions of an interface: NULL, or those of this file.
pub data InterfaceFunction : Type 0 where
  no_function tsn_initialise tsn_output tsn_link_status : InterfaceFunction

-- The fields of `NetworkInterface_t` that the code writes. `has_name` says that `pcName` leads to
-- the static array; NULL otherwise.
pub record Interface : Type 0 where
  pub has_name : Bool
  pub argument : ℕ
  pub initialise : InterfaceFunction
  pub output : InterfaceFunction
  pub link_status : InterfaceFunction

-- What `memset` leaves.
abbrev pub cleared_interface : Interface
cleared_interface = record {
  has_name = false;
  argument = 0;
  initialise = no_function;
  output = no_function;
  link_status = no_function;
}

-- What the project and other code give: the queues of vNetworkQueueInit, the timebase of
-- vTimebaseInit, the name that snprintf writes for an index, and the handle that xTaskCreate
-- returned, or 0.
pub record Project (k : Kernel) : Type 0 where
  pub queue_init : State k → Run (State k)
  pub timebase_init : Timebase → Timebase
  pub print_name : ℕ → List ℕ
  pub created : ℕ

-- The state of the layer: `controller` is `xTSNControllerHandle`, `tasks` has the priorities of
-- the tasks that were created, `initialised` is `xNetworkWrapperInitialised`, `name` the static
-- array, and `added` has the interfaces that FreeRTOS-Plus-TCP got.
pub record Layer (k : Kernel) (e : PointerQueues) : Type 0 where
  pub world : World k e
  pub timebase : Timebase
  pub controller : ℕ
  pub tasks : List ℕ
  pub initialised : Bool
  pub name : List ℕ
  pub interfaces : ℕ → Option Interface
  pub configs : ℕ → Option InterfaceConfig
  pub added : List ℕ

-- The arguments of a call of `pxTSN_FillInterfaceDescriptor`.
pub record Call : Type 0 where
  pub index : ℕ
  pub interface : ℕ
  pub config : ℕ

-- `xIsCallingFromTSNController`, given the handle of the task that runs.
unfoldable pub is_calling_from_controller : ℕ → ℕ → Bool
is_calling_from_controller current controller = current == controller

module _ (k : Kernel) (e : PointerQueues) (c : Config) (x : Project k) where
  -- `vTSNController_Initialise`. The kernel keeps the priority of the new task.
  unfoldable pub controller_initialise : Layer k e → Layer k e
  controller_initialise l =
      if l.controller == 0
      then (if x.created == 0 then l else record l {
        controller = x.created;
        tasks = l.tasks ++ (task_base_prio c ∷ []);
        world = record l.world {
          net = record l.world.net { controller_priority = task_base_prio c };
        };
      })
      else l

  -- The block of `pxTSN_FillInterfaceDescriptor` that runs once.
  unfoldable pub initialise_once : Layer k e → Run (Layer k e)
  unfolding controller_initialise
  initialise_once l =
      if l.initialised
      then done l
      else (x.queue_init l.world.net >>= λ net.
          let l1 = controller_initialise (record l { world = record l.world { net = net } }) in
          done (record l1 {
            world = initialise_sockets k e l1.world;
            timebase = x.timebase_init l1.timebase;
            initialised = true;
          }))

  -- `pxTSN_FillInterfaceDescriptor`. The service tag of the configuration is left as it is.
  unfoldable pub fill_interface_descriptor : Layer k e → Call → Run (Layer k e)
  unfolding initialise_once
  fill_interface_descriptor l call = deref (l.interfaces call.interface) >>= λ old.
      deref (l.configs call.config) >>= λ config.
      let interface = record cleared_interface {
        has_name = true;
        argument = call.config;
        initialise = tsn_initialise;
        output = tsn_output;
        link_status = tsn_link_status;
      } in
      let config' = record config { emac_index = call.index; num_tags = 0; vlan_tag = 0 } in
      initialise_once (record l {
        name = x.print_name call.index;
        interfaces = update l.interfaces call.interface interface;
        configs = update l.configs call.config config';
      })
      >>= λ l'. done (record l' { added = l'.added ++ (call.interface ∷ []) })

  -- Calls one after another.
  unfoldable pub fill_all : Layer k e → List Call → Run (Layer k e)
  fill_all l [] = done l
  fill_all l (call ∷ calls) = fill_interface_descriptor l call >>= λ l'. fill_all l' calls
