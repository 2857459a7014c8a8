-- ===== src/Examples/InterfaceCases.antt =====
-- The initialisation of the interfaces and of the layer at concrete inputs.
use free_rtos_tsn_compatibil.Prelude.{◌≡◌, refl, true, false, none, some, List, [], ◌∷◌, All, arith}
use free_rtos_tsn_compatibil.State.{done}
use free_rtos_tsn_compatibil.Timebase.Handle.{initial}
use free_rtos_tsn_compatibil.Wrapper.Interface.{Project, Layer, Call, cleared_interface, fill_all}
use free_rtos_tsn_compatibil.Wrapper.Interface.Once.{IsFilled, started, fill_all-Once}
use free_rtos_tsn_compatibil.Examples.Bounded.{bounded_kernel}
use free_rtos_tsn_compatibil.Examples.Pointers.{pointers}
use free_rtos_tsn_compatibil.Examples.Network.{net, config}
use free_rtos_tsn_compatibil.Examples.TimebaseCases.{board}
use free_rtos_tsn_compatibil.Examples.SocketCases.{world}
use free_rtos_tsn_compatibil.Examples.OutputCases.{plain}

-- Before the first of the interfaces 90 and 91 is filled.
abbrev reset : Layer bounded_kernel pointers
reset = record {
  world = record world { bound = none };
  timebase = initial;
  controller = 0;
  tasks = [];
  initialised = false;
  name = [];
  interfaces = λ a. some cleared_interface;
  configs = λ a. some plain;
  added = [];
}

abbrev project : Project bounded_kernel
project = record {
  queue_init = λ st. done (record st { num_queues = 0; queue_list = [] });
  timebase_init = λ t. record t { handle = board };
  print_name = λ i. 101 ∷ 116 ∷ 104 ∷ 48 ∷ [];
  created = 77;
}

abbrev calls : List Call
calls =
    record { index = 0; interface = 90; config = 80 }
    ∷ record { index = 1; interface = 91; config = 81 }
    ∷ []

fill_all-Once_example :
    (l' : Layer bounded_kernel pointers) × (fill_all bounded_kernel pointers config project reset
        calls
      ≡ done l')
    × (l'.world
        ≡ started bounded_kernel pointers config project reset.world
            (record net { num_queues = 0; queue_list = [] }))
    × (l'.timebase ≡ record initial { handle = board })
    × (l'.controller ≡ 77)
    × (l'.tasks ≡ 1 ∷ [])
    × (l'.initialised ≡ true)
    × (l'.added ≡ 90 ∷ 91 ∷ [])
    × All (λ other. IsFilled bounded_kernel pointers l' other.interface) calls
fill_all-Once_example =
    fill_all-Once bounded_kernel pointers config project reset
      (record net { num_queues = 0; queue_list = [] })
      (record { index = 0; interface = 90; config = 80 })
      (record { index = 1; interface = 91; config = 81 } ∷ []) refl refl (omega arith) refl
      (((cleared_interface, refl), (plain, refl)), (((cleared_interface, refl), (plain, refl)), tt))
