-- ===== src/VlanTags/Tci.antt =====
-- The macros on the tag control information (include/FreeRTOS_TSN_VLANTags.h): each field against
-- the others.
use free_rtos_tsn_compatibil.Prelude.{ℕ, ◌^◌, ◌%◌, ◌<◌, ◌≡◌, arith}
use free_rtos_tsn_compatibil.VlanTags.{
  get_pcp_from_tci, get_dei_from_tci, get_vid_from_tci, set_pcp_from_tci, set_dei_from_tci,
  set_vid_from_tci,
}

-- For a tag control information of 16 bits, vlantagSET_PCP_FROM_TCI sets the PCP to the value
-- modulo 8 and keeps the DEI and the VID, and the result has 16 bits.
pub get_pcp-set_pcp :
    (tci value : ℕ)
    → tci < 2 ^ 16
    → (get_pcp_from_tci (set_pcp_from_tci tci value) ≡ value % 8)
      × (get_dei_from_tci (set_pcp_from_tci tci value) ≡ get_dei_from_tci tci)
      × (get_vid_from_tci (set_pcp_from_tci tci value) ≡ get_vid_from_tci tci)
      × (set_pcp_from_tci tci value < 2 ^ 16)
get_pcp-set_pcp tci value h = (omega arith, omega arith, omega arith, omega arith)

-- For a tag control information of 16 bits, vlantagSET_VID_FROM_TCI sets the VID to the value
-- modulo 4096 and keeps the PCP and the DEI, and the result has 16 bits.
pub get_vid-set_vid :
    (tci value : ℕ)
    → tci < 2 ^ 16
    → (get_vid_from_tci (set_vid_from_tci tci value) ≡ value % 4096)
      × (get_dei_from_tci (set_vid_from_tci tci value) ≡ get_dei_from_tci tci)
      × (get_pcp_from_tci (set_vid_from_tci tci value) ≡ get_pcp_from_tci tci)
      × (set_vid_from_tci tci value < 2 ^ 16)
get_vid-set_vid tci value h = (omega arith, omega arith, omega arith, omega arith)

-- For a tag control information of 16 bits and every value, vlantagSET_DEI_FROM_TCI clears the
-- DEI, whatever the value is, and keeps the PCP and the VID.
pub get_dei-set_dei :
    (tci value : ℕ)
    → tci < 2 ^ 16
    → (get_dei_from_tci (set_dei_from_tci tci value) ≡ 0)
      × (get_pcp_from_tci (set_dei_from_tci tci value) ≡ get_pcp_from_tci tci)
      × (get_vid_from_tci (set_dei_from_tci tci value) ≡ get_vid_from_tci tci)
get_dei-set_dei tci value h = (omega arith, omega arith, omega arith)
