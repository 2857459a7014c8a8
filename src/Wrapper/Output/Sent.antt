-- ===== src/Wrapper/Output/Sent.antt =====
-- The report on a packet that the task of the TSN controller sent, in
-- source/portable/NetworkInterface/Common/NetworkWrapper.c.
use free_rtos_tsn_compatibil.Prelude.{
  ℕ, ◌≡◌, ◌≢◌, refl, Bool, true, false, Option, none, some, [], ◌∷◌, ◌++◌,
}
use free_rtos_tsn_compatibil.Kernel.{Kernel, PointerQueues}
use free_rtos_tsn_compatibil.State.{Config, done, release}
use free_rtos_tsn_compatibil.Frame.{Platform}
use free_rtos_tsn_compatibil.Memory.{Memory, Msghdr}
use free_rtos_tsn_compatibil.World.{NetworkBuffer, TsnSocket, World, output, note}
use free_rtos_tsn_compatibil.Wrapper.Control.{tx_software, ExtendedErr}
use free_rtos_tsn_compatibil.Wrapper.Receive.{Granted, Surroundings}
use free_rtos_tsn_compatibil.Wrapper.Receive.Accepted.{Listens, Listens-same}
use free_rtos_tsn_compatibil.Wrapper.Output.{
  InterfaceConfig, ResizeAnswer, MacAnswer, report_sent, network_interface_output,
}
use free_rtos_tsn_compatibil.Wrapper.Output.Queued.{untagged_run}
use free_rtos_tsn_compatibil.Wrapper.Output.Report.{report_sent-Unset}

module _ (p : Platform) (s : Surroundings) (k : Kernel) (e : PointerQueues) where
  module _ (c : Config) where
    output_run :
        (g : Granted) (garbage : ExtendedErr) (configs : ℕ → Option InterfaceConfig)
        (first second : Option ResizeAnswer) (mac : MacAnswer) (w w' : World k e) (interface b : ℕ)
        (release : Bool) (config : InterfaceConfig)
        → configs interface ≡ some config
        → config.num_tags ≡ 0
        → mac.sent ≡ true
        → report_sent p s k e g garbage
            (note k e (record w { buffers = mac.buffers }) (output interface b release))
            b
          ≡ done w'
        → network_interface_output p s k e c g garbage true configs first second mac w interface b
            release
          ≡ done (w', true)
    unfolding network_interface_output
    output_run g garbage configs first second mac w w' interface b release config there z sent run =
        rw (there, untagged_run p s k e c w b config first second z, sent, run) refl

    -- Where the driver leaves the descriptor, for a TSN socket without
    -- SOF_TIMESTAMPING_TX_SOFTWARE, with memory for a message at a free address: the driver was
    -- called once, the function returns pdPASS, and messages, sockets and queues are as they were,
    -- since the message that was made is freed.
    pub output_unreported :
        (g : Granted) (garbage : ExtendedErr) (configs : ℕ → Option InterfaceConfig)
        (first second : Option ResizeAnswer) (mac : MacAnswer) (w : World k e) (interface b : ℕ)
        (release : Bool) (config : InterfaceConfig) (base tsn : ℕ) (buf : NetworkBuffer)
        (socket : TsnSocket e)
        → configs interface ≡ some config
        → config.num_tags ≡ 0
        → mac.sent ≡ true
        → mac.buffers b ≡ some buf
        → Listens k e w buf.bound_port base tsn socket
        → tx_software socket.ts_flags ≡ false
        → g.message ≢ 0
        → w.memory.messages g.message ≡ none
        → (messages : ℕ → Option Msghdr) × (network_interface_output p s k e c g garbage true
              configs first second mac w interface b release
            ≡ done (
              record w {
                memory = record w.memory { messages = messages };
                buffers = mac.buffers;
                effects = w.effects ++ (output interface b release ∷ []);
              },
              true,
            ))
          × ((a : ℕ) → messages a ≡ w.memory.messages a)
    output_unreported g garbage configs first second mac w interface b release config base tsn buf
          socket there z sent kept l unset nm free =
        let w2 = note k e (record w { buffers = mac.buffers }) (output interface b release) in
        let (messages, run, same) =
          report_sent-Unset p s k e g garbage w2 b base tsn buf socket kept
            (Listens-same k e w w2 buf.bound_port base tsn socket refl refl l) unset nm free in
        (
          messages,
          output_run g garbage configs first second mac w _ interface b release config there z sent
              run,
          same,
        )
