-- ===== src/Examples.antt =====
-- Concrete inputs at which the theorems with hypotheses apply, each theorem at one of them.
mod Bounded
mod Network
mod TimebaseCases
mod SchedulerCases
mod BlockCases
mod FrameCases
mod Pointers
mod SocketCases
mod ReceptionCases
mod RecvCases
mod OutputCases
mod InterfaceCases
mod ControllerCases
