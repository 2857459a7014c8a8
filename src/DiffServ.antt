-- ===== src/DiffServ.antt =====
-- source/FreeRTOS_TSN_DS.c and include/FreeRTOS_TSN_DS.h: the class of differentiated services in
-- the IP header of a frame. Shifts and masks of bytes are written as `/`, `%` and `*` by powers of
-- two.
pub mod RoundTrip
use free_rtos_tsn_compatibil.Prelude.{
  ℕ, suc, ◌+◌, ◌*◌, ◌/◌, ◌%◌, Bool, true, false, ◌==◌, if◌then◌else◌,
}
use free_rtos_tsn_compatibil.State.{Run, done, ◌>>=◌}
use free_rtos_tsn_compatibil.Frame.{
  Platform, Buffer, frame_type_offset, size_of_eth_header, size_of_tag, read8, write8, read16,
}

abbrev pub tpid_default : ℕ
tpid_default = 0x8100

abbrev pub tpid_double_tag : ℕ
tpid_double_tag = 0x88a8

-- `diffservGET_DSCLASS_IPv4`, of the second byte of the header.
abbrev pub get_dsclass_ipv4 : ℕ → ℕ
get_dsclass_ipv4 code = code / 4

-- `diffservGET_DSCLASS_IPv6`, of the first two bytes of the header.
abbrev pub get_dsclass_ipv6 : ℕ → ℕ → ℕ
get_dsclass_ipv6 version_class class_flow = version_class % 16 * 4 + class_flow / 64 % 4

-- The byte that `diffservSET_DSCLASS_IPv4` writes.
abbrev pub set_dsclass_ipv4 : ℕ → ℕ
set_dsclass_ipv4 value = value * 4 % 256

-- The two bytes that `diffservSET_DSCLASS_IPv6` writes.
abbrev pub set_version_class : ℕ → ℕ → ℕ
set_version_class version_class value = version_class / 16 % 16 * 16 + value / 4 % 16

abbrev pub set_class_flow : ℕ → ℕ → ℕ
set_class_flow class_flow value = class_flow % 64 + value % 4 * 64

-- `return pdPASS`.
abbrev pub pass : Buffer → Run (Buffer × Bool)
pass buf = done (buf, true)

module _ (p : Platform) where
  -- `prvGetIPVersionAndOffset`: the IP version and the offset. The variable for the version is not
  -- written for an untagged frame; `garbage` is what it holds before the call.
  unfoldable pub get_ip_version_and_offset : ℕ → Buffer → Run (ℕ × ℕ)
  get_ip_version_and_offset garbage buf = read16 p buf frame_type_offset >>= λ frame_type.
      if p.ntohs frame_type == tpid_double_tag
      then (read16 p buf 20 >>= λ version. done (version, size_of_eth_header + 2 * size_of_tag))
      else if p.ntohs frame_type == tpid_default
      then (read16 p buf 16 >>= λ version. done (version, size_of_eth_header + size_of_tag))
      else done (garbage, size_of_eth_header)

  -- The `switch` of `ucDSClassGet`. The result for any other type is `( uint8_t ) ~0`.
  unfoldable pub dsclass_at : Buffer → ℕ → ℕ → Run ℕ
  dsclass_at buf version offset =
      if version == p.ipv4_frame_type
      then (read8 buf (offset + 1) >>= λ code. done (get_dsclass_ipv4 code))
      else if version == p.ipv6_frame_type
      then (read8 buf offset >>= λ a. read8 buf (offset + 1) >>= λ b. done (get_dsclass_ipv6 a b))
      else done 255

  -- `ucDSClassGet`. The variable of each call is its own.
  unfoldable pub ds_class_get : ℕ → Buffer → Run ℕ
  ds_class_get garbage buf =
      get_ip_version_and_offset garbage buf >>= λ (version, offset). dsclass_at buf version offset

  -- The `switch` of `xDSClassSet`; true is pdPASS.
  unfoldable pub set_dsclass_at : Buffer → ℕ → ℕ → ℕ → Run (Buffer × Bool)
  set_dsclass_at buf version offset value =
      if version == p.ipv4_frame_type
      then (write8 buf (offset + 1) (set_dsclass_ipv4 value) >>= pass)
      else if version == p.ipv6_frame_type
      then (read8 buf offset >>= λ a. write8 buf offset (set_version_class a value) >>= λ buf'.
          read8 buf' (offset + 1) >>= λ b.
          write8 buf' (offset + 1) (set_class_flow b value) >>= pass)
      else done (buf, false)

  -- `xDSClassSet`.
  unfoldable pub ds_class_set : ℕ → Buffer → ℕ → Run (Buffer × Bool)
  ds_class_set garbage buf value = get_ip_version_and_offset garbage buf >>= λ (version, offset).
      set_dsclass_at buf version offset value
