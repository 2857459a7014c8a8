-- ===== src/VlanTags.antt =====
-- source/FreeRTOS_TSN_VLANTags.c and include/FreeRTOS_TSN_VLANTags.h: the tags in the Ethernet
-- header of a frame. A pointer to a `struct xVLAN_TAG` is its offset in the buffer, and `none` is
-- NULL. A BaseType_t is its 32 bits.
pub mod Tci
pub mod Absent
use free_rtos_tsn_compatibil.Prelude.{
  ℕ, suc, ◌+◌, ◌*◌, ◌/◌, ◌%◌, ◌^◌, ◌-◌, Bool, true, false, ◌==◌, ltb, not, if◌then◌else◌, Option,
  none, some, List, [], ◌∷◌,
}
use free_rtos_tsn_compatibil.State.{Run, done, fault, ◌>>=◌, deref}
use free_rtos_tsn_compatibil.Frame.{
  Platform, Buffer, frame_type_offset, size_of_eth_header, size_of_tag, read16, write16,
}
use free_rtos_tsn_compatibil.DiffServ.{tpid_default, tpid_double_tag, pass}

-- `vlantagGET_PCP_FROM_TCI`, `vlantagGET_DEI_FROM_TCI` and `vlantagGET_VID_FROM_TCI`.
abbrev pub get_pcp_from_tci : ℕ → ℕ
get_pcp_from_tci x = x / 8192 % 8

abbrev pub get_dei_from_tci : ℕ → ℕ
get_dei_from_tci x = x / 4096 % 2

abbrev pub get_vid_from_tci : ℕ → ℕ
get_vid_from_tci x = x % 4096

-- `vlantagSET_PCP_FROM_TCI`, `vlantagSET_DEI_FROM_TCI` and `vlantagSET_VID_FROM_TCI`. The bit of
-- the second is shifted to the right by 12.
abbrev pub set_pcp_from_tci : ℕ → ℕ → ℕ
set_pcp_from_tci x value = x % 8192 + value % 8 * 8192

abbrev pub set_dei_from_tci : ℕ → ℕ → ℕ
set_dei_from_tci x value = x / 8192 * 8192 + x % 4096 + value % 2 / 4096

abbrev pub set_vid_from_tci : ℕ → ℕ → ℕ
set_vid_from_tci x value = x / 4096 * 4096 + value % 4096

-- The cases of the `switch` of prvGetVLANSTag and of prvGetVLANCTag, none of which has a `break`:
-- `case n: uxOffset = offset;` and `default: return NULL;`.
pub data Case : Type 0 where
  case_assign : ℕ → ℕ → Case
  default_return_null : Case

-- The cases run through from one on, up to the `return` after the `switch`.
abbrev pub fall_through : List Case → ℕ → Option ℕ
fall_through [] offset = some offset
fall_through (case_assign n assigned ∷ rest) offset = fall_through rest assigned
fall_through (default_return_null ∷ rest) offset = none

-- The jump to the case; `offset` is what the variable holds before, which C does not say.
abbrev pub switch : List Case → ℕ → ℕ → Option ℕ
switch [] value offset = some offset
switch (case_assign n assigned ∷ rest) value offset =
    if value == n then fall_through rest assigned else switch rest value offset
switch (default_return_null ∷ rest) value offset = none

-- `prvGetVLANSTag`.
unfoldable pub get_vlan_s_tag : ℕ → Option ℕ
get_vlan_s_tag num_tags =
    switch (case_assign 2 frame_type_offset ∷ default_return_null ∷ []) num_tags 0

-- `prvGetVLANCTag`.
unfoldable pub get_vlan_c_tag : ℕ → Option ℕ
get_vlan_c_tag num_tags =
    switch
      (case_assign 1 frame_type_offset
        ∷ case_assign 2 (frame_type_offset + size_of_tag)
        ∷ default_return_null
        ∷ [])
      num_tags 0

-- `~0`.
abbrev pub not_present : ℕ
not_present = 2 ^ 32 - 1

module _ (p : Platform) where
  -- `ucGetNumberOfTags`.
  unfoldable pub number_of_tags : Buffer → Run ℕ
  number_of_tags buf =
      if ltb buf.data_length size_of_eth_header
      then done 0
      else (read16 p buf frame_type_offset >>= λ eth_type. done (
          if p.ntohs eth_type == tpid_double_tag
          then 1
          else if p.ntohs eth_type == tpid_default
          then 2
          else 0))

  -- The stores to `usTPID` and to `usTCI` through a pointer to a tag, and the load of `usTCI`.
  unfoldable pub store_tag : Buffer → Option ℕ → ℕ → ℕ → Run Buffer
  store_tag buf tag tpid tci =
      deref tag >>= λ at. write16 p buf at tpid >>= λ buf'. write16 p buf' (at + 2) tci

  unfoldable pub load_tci : Buffer → Option ℕ → Run ℕ
  load_tci buf tag = deref tag >>= λ at. read16 p buf (at + 2)

  -- `prvPrepareAndGetVLANCTag`.
  unfoldable pub prepare_vlan_c_tag : Buffer → Run (Buffer × Option ℕ)
  prepare_vlan_c_tag buf = number_of_tags buf >>= λ num_tags.
      if num_tags == 0
      then (store_tag buf (get_vlan_c_tag 1) (p.htons tpid_default) 0 >>= λ buf'.
          done (buf', get_vlan_c_tag 1))
      else if num_tags == 1
      then done (buf, get_vlan_c_tag 2)
      else if num_tags == 2
      then done (buf, get_vlan_c_tag 2)
      else done (buf, none)

  -- `prvPrepareAndGetVLANSTag`, which returns the pointer to the C-tag. Its case 1 goes on to case
  -- 2.
  unfoldable pub prepare_vlan_s_tag : Buffer → Run (Buffer × Option ℕ)
  prepare_vlan_s_tag buf = number_of_tags buf >>= λ num_tags.
      if num_tags == 0
      then (store_tag buf (get_vlan_s_tag 2) (p.htons tpid_double_tag) 0 >>= λ buf1.
          store_tag buf1 (get_vlan_c_tag 2) (p.htons tpid_default) 0 >>= λ buf2.
          done (buf2, get_vlan_c_tag 2))
      else if num_tags == 1
      then (deref (get_vlan_c_tag 2) >>= λ at. write16 p buf at (p.htons tpid_default) >>= λ buf1.
          load_tci buf1 (get_vlan_s_tag 2) >>= λ tci. write16 p buf1 (at + 2) tci >>= λ buf2.
          store_tag buf2 (get_vlan_s_tag 2) (p.htons tpid_double_tag) 0 >>= λ buf3.
          done (buf3, get_vlan_c_tag 2))
      else if num_tags == 2
      then done (buf, get_vlan_c_tag 2)
      else done (buf, none)

  -- The test of the pointer in each of the functions that get a field, and the result.
  unfoldable pub get_field : Buffer → Option ℕ → (ℕ → ℕ) → Run ℕ
  get_field buf none from_tci = done not_present
  get_field buf (some at) from_tci = load_tci buf (some at) >>= λ tci. done (from_tci tci)

  -- `xVLANSTagGetPCP`, `xVLANSTagGetDEI`, `xVLANSTagGetVID` and `xVLANSTagCheckClass`.
  unfoldable pub s_tag_get_pcp : Buffer → Run ℕ
  s_tag_get_pcp buf =
      number_of_tags buf >>= λ n. get_field buf (get_vlan_s_tag n) (λ x. get_pcp_from_tci x)

  unfoldable pub s_tag_get_dei : Buffer → Run ℕ
  s_tag_get_dei buf =
      number_of_tags buf >>= λ n. get_field buf (get_vlan_s_tag n) (λ x. get_dei_from_tci x)

  unfoldable pub s_tag_get_vid : Buffer → Run ℕ
  s_tag_get_vid buf =
      number_of_tags buf >>= λ n. get_field buf (get_vlan_s_tag n) (λ x. get_vid_from_tci x)

  unfoldable pub s_tag_check_class : Buffer → ℕ → Run Bool
  s_tag_check_class buf class = s_tag_get_pcp buf >>= λ found.
      done (if not (found == not_present) then found == class else false)

  -- `xVLANCTagGetPCP`, `xVLANCTagGetDEI`, `xVLANCTagGetVID` and `xVLANCTagCheckClass`.
  unfoldable pub c_tag_get_pcp : Buffer → Run ℕ
  c_tag_get_pcp buf =
      number_of_tags buf >>= λ n. get_field buf (get_vlan_c_tag n) (λ x. get_pcp_from_tci x)

  unfoldable pub c_tag_get_dei : Buffer → Run ℕ
  c_tag_get_dei buf =
      number_of_tags buf >>= λ n. get_field buf (get_vlan_c_tag n) (λ x. get_dei_from_tci x)

  unfoldable pub c_tag_get_vid : Buffer → Run ℕ
  c_tag_get_vid buf =
      number_of_tags buf >>= λ n. get_field buf (get_vlan_c_tag n) (λ x. get_vid_from_tci x)

  unfoldable pub c_tag_check_class : Buffer → ℕ → Run Bool
  c_tag_check_class buf class = c_tag_get_pcp buf >>= λ found.
      done (if not (found == not_present) then found == class else false)

  -- The test of the pointer in each of the functions that set a field, and the store.
  unfoldable pub set_field : Buffer × Option ℕ → (ℕ → ℕ) → Run (Buffer × Bool)
  set_field (buf, none) update_tci = done (buf, false)
  set_field (buf, some at) update_tci =
      load_tci buf (some at) >>= λ tci. write16 p buf (at + 2) (update_tci tci) >>= pass

  -- `xVLANCTagSetPCP`, `xVLANCTagSetDEI` and `xVLANCTagSetVID`; true is pdTRUE.
  unfoldable pub c_tag_set_pcp : Buffer → ℕ → Run (Buffer × Bool)
  c_tag_set_pcp buf value =
      prepare_vlan_c_tag buf >>= λ prepared. set_field prepared (λ x. set_pcp_from_tci x value)

  unfoldable pub c_tag_set_dei : Buffer → ℕ → Run (Buffer × Bool)
  c_tag_set_dei buf value =
      prepare_vlan_c_tag buf >>= λ prepared. set_field prepared (λ x. set_dei_from_tci x value)

  unfoldable pub c_tag_set_vid : Buffer → ℕ → Run (Buffer × Bool)
  c_tag_set_vid buf value =
      prepare_vlan_c_tag buf >>= λ prepared. set_field prepared (λ x. set_vid_from_tci x value)

  -- `xVLANSTagSetPCP`, `xVLANSTagSetDEI` and `xVLANSTagSetVID`.
  unfoldable pub s_tag_set_pcp : Buffer → ℕ → Run (Buffer × Bool)
  s_tag_set_pcp buf value =
      prepare_vlan_s_tag buf >>= λ prepared. set_field prepared (λ x. set_pcp_from_tci x value)

  unfoldable pub s_tag_set_dei : Buffer → ℕ → Run (Buffer × Bool)
  s_tag_set_dei buf value =
      prepare_vlan_s_tag buf >>= λ prepared. set_field prepared (λ x. set_dei_from_tci x value)

  unfoldable pub s_tag_set_vid : Buffer → ℕ → Run (Buffer × Bool)
  s_tag_set_vid buf value =
      prepare_vlan_s_tag buf >>= λ prepared. set_field prepared (λ x. set_vid_from_tci x value)
