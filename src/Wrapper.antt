-- ===== src/Wrapper.antt =====
-- source/portable/NetworkInterface/Common/NetworkWrapper.c: the removal of VLAN tags from a frame
-- that was received. Insert has the insertion.
pub mod Strip
pub mod Insert
pub mod Control
pub mod Receive
pub mod Output
pub mod Interface
use free_rtos_tsn_compatibil.Prelude.{
  ℕ, zero, suc, ◌+◌, ◌-◌, ◌*◌, ◌^◌, ◌==◌, if◌then◌else◌, Option, none, some, List, get_elem?, set,
}
use free_rtos_tsn_compatibil.State.{Run, done, ◌>>=◌, deref, u32}
use free_rtos_tsn_compatibil.Frame.{Platform, Buffer, frame_type_offset, size_of_tag, read16}
use free_rtos_tsn_compatibil.VlanTags.{number_of_tags}

-- `memmove` to `dst` from `dst + distance`, so many bytes, from the first one on. A read outside
-- of the buffer is a fault.
unfoldable pub move_down : ℕ → ℕ → ℕ → List ℕ → Run (List ℕ)
move_down dst distance zero bytes = done bytes
move_down dst distance (suc count) bytes = deref (get_elem? bytes (dst + distance)) >>= λ b.
    move_down (dst + 1) distance count (set bytes dst b)

-- What `prvStripVLANTag` returns and what it writes through its two pointers, if it writes there.
pub record Stripped : Type 0 where
  pub num_tags : ℕ
  pub tci : Option ℕ
  pub service_tci : Option ℕ

-- The end of `prvStripVLANTag`: the `memmove` and the new length. The count of bytes wraps.
unfoldable pub remove_tags : Buffer → ℕ → Run Buffer
remove_tags buf size =
    move_down frame_type_offset size (u32 (buf.data_length + 2 ^ 32 - (size + frame_type_offset)))
      buf.bytes
    >>= λ bytes.
        done (record { data_length = u32 (buf.data_length + 2 ^ 32 - size); bytes = bytes })

module _ (p : Platform) where
  -- The `switch` of `prvStripVLANTag`, for a number of tags that is not 0.
  unfoldable pub read_tags : Buffer → ℕ → Run Stripped
  read_tags buf n =
      if n == 1
      then (read16 p buf (frame_type_offset + 2) >>= λ tci.
          done (record { num_tags = n; tci = some tci; service_tci = none }))
      else (read16 p buf (frame_type_offset + 2) >>= λ service.
          read16 p buf (frame_type_offset + size_of_tag + 2) >>= λ tci.
          done (record { num_tags = n; tci = some tci; service_tci = some service }))

  -- `prvStripVLANTag`.
  unfoldable pub strip_vlan_tag : Buffer → Run (Buffer × Stripped)
  unfolding remove_tags read_tags
  strip_vlan_tag buf = number_of_tags p buf >>= λ n.
      if n == 0
      then done (buf, record { num_tags = 0; tci = none; service_tci = none })
      else (read_tags buf n >>= λ stripped.
          remove_tags buf (n * size_of_tag) >>= λ buf'. done (buf', stripped))
