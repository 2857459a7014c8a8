-- ===== src/World.antt =====
-- The state that sockets, controller and network interface share, besides that of the network
-- scheduler: the messages, the network buffers, the TSN sockets of
-- source/include/FreeRTOS_TSN_Sockets.h, and the fields of the sockets and buffers of
-- FreeRTOS-Plus-TCP that the code reads and writes.
use free_rtos_tsn_compatibil.Prelude.{ℕ, Bool, Option, List, [], ◌∷◌, ◌++◌}
use free_rtos_tsn_compatibil.Kernel.{Kernel, PointerQueues}
use free_rtos_tsn_compatibil.State.{State}
use free_rtos_tsn_compatibil.Memory.{Memory}

-- `NetworkBufferDescriptor_t`. `ethernet` is `pucEthernetBuffer`.
pub record NetworkBuffer : Type 0 where
  pub ethernet : ℕ
  pub data_length : ℕ
  pub ip_address : ℕ
  pub port : ℕ
  pub bound_port : ℕ
  pub interface : ℕ
  pub end_point : ℕ

-- `FreeRTOS_Socket_t`: whether the item for the list of bound sockets is in a list and its value,
-- the block times, the end point, the bit `bits.bIsIPv6`, and the list of waiting packets.
pub record BaseSocket : Type 0 where
  pub is_bound : Bool
  pub bound_port : ℕ
  pub local_port : ℕ
  pub send_block_time : ℕ
  pub receive_block_time : ℕ
  pub end_point : ℕ
  pub has_event_group : Bool
  pub is_ipv6 : Bool
  pub waiting : List ℕ

-- `struct xTSN_SOCKET`, in the default configuration, which leaves the VLAN tags out.
-- `xBoundSocketListItem` is its value and whether it is in a list.
pub record TsnSocket (e : PointerQueues) : Type 0 where
  pub base : ℕ
  pub err_queue : e.Queue
  pub ds_class : ℕ
  pub ts_flags : ℕ
  pub bound_port : ℕ
  pub is_listed : Bool

-- What the code asks of the code outside of the repository, with the address of the network
-- buffer: vReleaseNetworkBufferAndDescriptor, the output function of a network interface (with the
-- argument `bReleaseAfterSend`), xSendEventStructToIPTask and xProcessReceivedUDPPacket (with
-- their results), and the event that a socket has received a packet.
pub data Effect : Type 0 where
  released : ℕ → Effect
  output : ℕ → ℕ → Bool → Effect
  sent_to_ip_task : ℕ → Bool → Effect
  processed : ℕ → Bool → Effect
  receive_event : ℕ → Effect

-- `bound` is `xTSNBoundUDPSocketList`, or `none` before it is initialised.
pub record World (k : Kernel) (e : PointerQueues) : Type 0 where
  pub net : State k
  pub memory : Memory
  pub buffers : ℕ → Option NetworkBuffer
  pub sockets : ℕ → Option (TsnSocket e)
  pub bases : ℕ → Option BaseSocket
  pub bound : Option (List ℕ)
  pub effects : List Effect

-- The numbers of the errors of FreeRTOS that the code returns.
pub data Errno : Type 0 where
  einval ebadf eagain etimedout ewouldblock : Errno

-- A signed result: a number that is not negative, the negative of an error number, or an error
-- number.
pub data Outcome : Type 0 where
  returned : ℕ → Outcome
  negative : Errno → Outcome
  positive : Errno → Outcome

-- `FREERTOS_TSN_INVALID_SOCKET` and `FREERTOS_INVALID_SOCKET`.
abbrev pub invalid_socket : ℕ
invalid_socket = 0xffffffff

module _ (k : Kernel) (e : PointerQueues) where
  abbrev pub note : World k e → Effect → World k e
  note w x = record w { effects = w.effects ++ (x ∷ []) }
