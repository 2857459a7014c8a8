-- ===== src/Lib.antt =====
-- A model of the FreeRTOS TSN Compatibility Layer, a component between FreeRTOS-Plus-TCP and the
-- network driver that schedules packets over a hierarchy of queues for time sensitive networks.
--
-- The parts and how they interact. A packet is inserted into one of the network queues, by a filter
-- or by a name (source/FreeRTOS_TSN_NetworkScheduler.c). A queue stands below a node of a tree,
-- and each node has a scheduler, a pair of functions that say whether the node is ready and which
-- child is served (source/FreeRTOS_TSN_NetworkSchedulerBlock.c and source/modules/). The task of
-- the TSN controller asks the root of the tree for the next queue, takes a packet from it and
-- delivers it; a push raises the task's priority and notifies it
-- (source/FreeRTOS_TSN_Controller.c). A TSN socket (source/FreeRTOS_TSN_Sockets.c) is a socket of
-- FreeRTOS-Plus-TCP with a class of service and a queue of errors: it sends a frame by an insertion
-- into the network queues. Messages carry control information to it
-- (source/FreeRTOS_TSN_Ancillary.c). Next to them stand the timebase, the fields of VLAN tags and
-- the class of differentiated services in a frame.
--
-- Files and sources:
--   Prelude: names of the library, Boolean tests and lemmas on lists.
--   Kernel: the queues of the FreeRTOS kernel and its tick conversion, records of operations and
--     of the laws that the code relies on. Examples/Bounded and Examples/Pointers have instances.
--   State: `NetworkQueue_t`, `NetworkNode_t` and `struct xSCHEDULER_GENERIC` on a heap, the global
--     variables, and `Run`, the outcome of a call, with `fault` for an access through NULL, to
--     freed memory or out of an array, a division by zero and a failed assertion. What
--     the heap holds after a change is in Heap.
--   Scheduler: source/FreeRTOS_TSN_NetworkScheduler.c and FreeRTOS_TSN_NetworkSchedulerQueue.c.
--     Its children have the choice of a queue for an item (Choice), insertion and removal
--     (Insertion), and the list of queues (Registry).
--   Priority: the priority and the notification of the controller's task, of
--     source/FreeRTOS_TSN_Controller.c.
--   Block: source/FreeRTOS_TSN_NetworkSchedulerBlock.c, with the functions that its function
--     pointers lead to, of source/modules/BasicSchedulers/BasicSchedulers.c and
--     source/modules/CreditBasedScheduler/SchedCBS.c. Its children have the creation of nodes
--     (Create), links (Linking), the call on a tree of nodes (Hierarchy), the credit (Credit) and
--     the wake-up time (Wakeup).
--   Timebase: source/FreeRTOS_TSN_Timebase.c; the arithmetic (Arith) and the handle (Handle).
--   Bytes: copies and stores in an array of bytes; their effect (Copy, Stores, Each).
--   Frame: the bytes of a network buffer, and what the platform does with a uint16_t and a
--     uint32_t.
--   DiffServ: source/FreeRTOS_TSN_DS.c.
--   VlanTags: source/FreeRTOS_TSN_VLANTags.c; the macros of its header (Tci) and what the
--     getters and setters return (Absent).
--   Memory: the messages and the arrays of bytes, by address.
--   Ancillary: source/FreeRTOS_TSN_Ancillary.c with the macros of its header; a walk over control
--     messages (Entries, Filling, Reading, Control) and the release of messages (Free, Freed).
--   World: the state that the sockets share with the network queues, and what is asked of code
--     outside of the repository, as a list of effects.
--   Sockets: source/FreeRTOS_TSN_Sockets.c; the list of bound sockets (Registry), sending (Send),
--     with the headers of a frame (Headers) and what becomes of its buffer (Disposal, Ownership), and receiving
--     (Receive, Message), with where the payload of a frame starts (Payload), no packet (Lapse) and a packet
--     that is copied and freed (Region, Copied, Datagram, Taken).
--   Controller: the rest of source/FreeRTOS_TSN_Controller.c: the delivery of frames, and the task
--     (Task), with what its loop sends (Waiting, Rounds, Drains, Order, Served) and what becomes of the buffer
--     of a frame for FreeRTOS-Plus-TCP (Fate, Delivery).
--   Timestamp: source/FreeRTOS_TSN_Timestamp.c and its struct in memory.
--   Wrapper: source/portable/NetworkInterface/Common/NetworkWrapper.c: the removal (Strip) and the
--     insertion (Insert) of VLAN tags, with the memory it needs (Room); the control messages of a packet (Control), with what is read back
--     on reception (Report) and after sending (Status); received frames (Receive), with their headers (Frames),
--     their messages (Messages, Built), the item (Accepted), the way to the socket (Runs, Delivered), a frame
--     whose tags are miscounted (Miscounted) and the event (Event); the output (Output) of a descriptor that
--     the driver releases or leaves (Queued, Report, Sent) and the tags that it inserts (Tagged); the
--     interfaces and the initialisation of the layer (Interface, Once).
--   Examples: concrete inputs.
-- A function has the name of the C function in lower case, without the prefix of its file and its
-- type: `insert_packet_by_filter` is xNetworkQueueInsertPacketByFilter. State that a function
-- changes is an argument and a part of the result. An address is a number and NULL is 0; a
-- pointer into a frame is an offset.
--
-- Bounds and fuel. Integers are the native ℕ, and an operation that can wrap is taken modulo
-- 2 ^ 32, the size of UBaseType_t, TickType_t and size_t on a 32-bit target. The recursion of
-- pxNetworkSchedulerCall takes fuel for its depth; the theorem on the call gives it the depth of
-- the tree. The inner loop of the controller's task takes rounds as fuel, and its
-- theorem gives it one more than there are packets. The other loops are structural recursions.
--
-- Not modelled: the callbacks on queues and the VLAN tags of sockets, which the default
-- configuration leaves out; schedulers that a project adds; other tasks that run while a call runs,
-- but for a wait of FreeRTOS_TSN_recvmsg, whose outcome is an argument; the dumps of packets, which the
-- default configuration leaves out; the files in templates/, of which SchedulerTemplate.c is a text to be
-- filled in. In the model, vTaskPrioritySet sets the
-- priority that it is given, which the kernel does for priorities below configMAX_PRIORITIES; its
-- assertion and its limit for others are left out. The interface function that the task of the
-- controller calls (`pfOutput`) is an effect, and the model of xTSN_NetworkInterfaceOutput is not put
-- in its place. The kernel, the network driver, FreeRTOS-Plus-TCP and the memory allocator are
-- parameters. IPv6 frames are not sent, since prvPrepareBufferUDPv6 fails.
pub mod Prelude
pub mod Timebase
pub mod Kernel
pub mod State
pub mod Priority
pub mod Scheduler
pub mod Block
pub mod Bytes
pub mod Frame
pub mod DiffServ
pub mod VlanTags
pub mod Memory
pub mod Ancillary
pub mod World
pub mod Sockets
pub mod Timestamp
pub mod Wrapper
pub mod Controller
mod Examples
