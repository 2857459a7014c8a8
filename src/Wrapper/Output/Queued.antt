-- ===== src/Wrapper/Output/Queued.antt =====
-- The output of a packet whose descriptor the driver released
-- (source/portable/NetworkInterface/Common/NetworkWrapper.c).
use free_rtos_tsn_compatibil.Prelude.{ℕ, ◌≡◌, refl, Bool, true, Option, none, some}
use free_rtos_tsn_compatibil.Kernel.{Kernel, PointerQueues}
use free_rtos_tsn_compatibil.State.{Config, done, fault}
use free_rtos_tsn_compatibil.Frame.{Platform}
use free_rtos_tsn_compatibil.World.{World}
use free_rtos_tsn_compatibil.Wrapper.Control.{ExtendedErr}
use free_rtos_tsn_compatibil.Wrapper.Receive.{Granted, Surroundings}
use free_rtos_tsn_compatibil.Wrapper.Output.{
  InterfaceConfig, ResizeAnswer, MacAnswer, insert_tags, report_sent, network_interface_output,
}

module _ (p : Platform) (s : Surroundings) (k : Kernel) (e : PointerQueues) (c : Config) where
  pub untagged_run :
      (w : World k e) (b : ℕ) (config : InterfaceConfig) (first second : Option ResizeAnswer)
      → config.num_tags ≡ 0
      → insert_tags p s k e w b config first second ≡ done (w, true)
  unfolding insert_tags
  untagged_run w b config first second z = rw (z) refl

  -- Where the task of the TSN controller sends a packet over an interface without tags, and the
  -- driver succeeds and releases the descriptor, xTSN_NetworkInterfaceOutput reads the port of the
  -- packet from the descriptor that was released.
  pub output_released :
      (g : Granted) (garbage : ExtendedErr) (configs : ℕ → Option InterfaceConfig)
      (first second : Option ResizeAnswer) (mac : MacAnswer) (w : World k e) (interface b : ℕ)
      (release : Bool) (config : InterfaceConfig)
      → configs interface ≡ some config
      → config.num_tags ≡ 0
      → mac.sent ≡ true
      → mac.buffers b ≡ none
      → network_interface_output p s k e c g garbage true configs first second mac w interface b
          release
        ≡ fault
  unfolding network_interface_output report_sent
  output_released g garbage configs first second mac w interface b release config there z sent
        gone =
      rw (there, untagged_run w b config first second z, sent, gone) refl
