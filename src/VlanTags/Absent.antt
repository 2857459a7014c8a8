-- ===== src/VlanTags/Absent.antt =====
-- What the functions of source/FreeRTOS_TSN_VLANTags.c give to their callers.
use free_rtos_tsn_compatibil.Prelude.{
  ℕ, ◌+◌, ◌*◌, ◌≤◌, ◌≡◌, refl, Bool, false, ◌==◌, ltb, if◌then◌else◌, Bool-cases, inl, inr, none,
  arith,
}
use free_rtos_tsn_compatibil.State.{Run, done, fault, out_of_fuel, ◌>>=◌, >>=-eq-done}
use free_rtos_tsn_compatibil.Frame.{Platform, Buffer, read16, frame_type_offset, size_of_eth_header}
use free_rtos_tsn_compatibil.DiffServ.{tpid_default, tpid_double_tag, get_ip_version_and_offset}
use free_rtos_tsn_compatibil.VlanTags.{
  get_vlan_s_tag, get_vlan_c_tag, not_present, number_of_tags, store_tag, load_tci,
  prepare_vlan_c_tag, prepare_vlan_s_tag, get_field, set_field, s_tag_get_pcp, s_tag_get_dei,
  s_tag_get_vid, s_tag_check_class, c_tag_get_pcp, c_tag_get_dei, c_tag_get_vid, c_tag_check_class,
  s_tag_set_pcp, s_tag_set_dei, s_tag_set_vid, c_tag_set_pcp, c_tag_set_dei, c_tag_set_vid,
}

-- Neither of the `switch` statements returns a tag.
get_vlan_s_tag-none : (n : ℕ) → get_vlan_s_tag n ≡ none
unfolding get_vlan_s_tag
get_vlan_s_tag-none n = ground arith

get_vlan_c_tag-none : (n : ℕ) → get_vlan_c_tag n ≡ none
unfolding get_vlan_c_tag
get_vlan_c_tag-none n = ground arith

-- How an attempt to set a field of a tag ends, by the number of tags.
abbrev pub c_tag_refused : Buffer → ℕ → Run (Buffer × Bool)
c_tag_refused buf n = if n == 0 then fault else done (buf, false)

abbrev pub s_tag_refused : Buffer → ℕ → Run (Buffer × Bool)
s_tag_refused buf n = if ltb n 2 then fault else done (buf, false)

offset_of_version :
    (m : Run ℕ) (o version offset : ℕ)
    → ◌>>=◌ {B = ℕ × ℕ} m (λ v. done (v, o)) ≡ done (version, offset)
    → o ≡ offset
offset_of_version (done v) o version offset h = cc
offset_of_version fault o version offset h = cc
offset_of_version out_of_fuel o version offset h = cc

module _ (p : Platform) where
  -- A field of the S-tag, by any of its getters, is absent.
  pub s_tag_absent :
      (buf : Buffer) (n : ℕ) (from_tci : ℕ → ℕ)
      → number_of_tags p buf ≡ done n
      → (number_of_tags p buf >>= λ m. get_field p buf (get_vlan_s_tag m) from_tci)
        ≡ done not_present
  unfolding get_field
  s_tag_absent buf n from_tci h = rw (h, get_vlan_s_tag-none n) refl

  pub c_tag_absent :
      (buf : Buffer) (n : ℕ) (from_tci : ℕ → ℕ)
      → number_of_tags p buf ≡ done n
      → (number_of_tags p buf >>= λ m. get_field p buf (get_vlan_c_tag m) from_tci)
        ≡ done not_present
  unfolding get_field
  c_tag_absent buf n from_tci h = rw (h, get_vlan_c_tag-none n) refl

  -- For each frame whose type can be read, tagged or not, each of the getters of the S-tag returns
  -- `~0`, and xVLANSTagCheckClass returns pdFALSE for every class.
  pub s_tag_getters_lem :
      (buf : Buffer) (n class : ℕ)
      → number_of_tags p buf ≡ done n
      → (s_tag_get_pcp p buf ≡ done not_present)
        × (s_tag_get_dei p buf ≡ done not_present)
        × (s_tag_get_vid p buf ≡ done not_present)
        × (s_tag_check_class p buf class ≡ done false)
  unfolding s_tag_get_pcp s_tag_get_dei s_tag_get_vid s_tag_check_class
  s_tag_getters_lem buf n class h =
      let pcp = s_tag_absent buf n _ h in
      (pcp, s_tag_absent buf n _ h, s_tag_absent buf n _ h, rw (pcp) refl)

  -- For each frame whose type can be read, tagged or not, each of the getters of the C-tag returns
  -- `~0`, and xVLANCTagCheckClass returns pdFALSE for every class.
  pub c_tag_getters_lem :
      (buf : Buffer) (n class : ℕ)
      → number_of_tags p buf ≡ done n
      → (c_tag_get_pcp p buf ≡ done not_present)
        × (c_tag_get_dei p buf ≡ done not_present)
        × (c_tag_get_vid p buf ≡ done not_present)
        × (c_tag_check_class p buf class ≡ done false)
  unfolding c_tag_get_pcp c_tag_get_dei c_tag_get_vid c_tag_check_class
  c_tag_getters_lem buf n class h =
      let pcp = c_tag_absent buf n _ h in
      (pcp, c_tag_absent buf n _ h, c_tag_absent buf n _ h, rw (pcp) refl)

  -- The setters of the C-tag, on each number of tags.
  c_tag_set_lem :
      (buf : Buffer) (n : ℕ) (update_tci : ℕ → ℕ)
      → number_of_tags p buf ≡ done n
      → (prepare_vlan_c_tag p buf >>= λ prepared. set_field p prepared update_tci)
        ≡ c_tag_refused buf n
  unfolding prepare_vlan_c_tag store_tag set_field
  c_tag_set_lem buf n update_tci h =
      rw (h, get_vlan_c_tag-none 1, get_vlan_c_tag-none 2) (ground arith)

  s_tag_set_lem :
      (buf : Buffer) (n : ℕ) (update_tci : ℕ → ℕ)
      → number_of_tags p buf ≡ done n
      → (prepare_vlan_s_tag p buf >>= λ prepared. set_field p prepared update_tci)
        ≡ s_tag_refused buf n
  unfolding prepare_vlan_s_tag store_tag load_tci set_field
  s_tag_set_lem buf n update_tci h =
      rw (h, get_vlan_c_tag-none 2, get_vlan_s_tag-none 2) (ground arith)

  -- For each frame whose type can be read, each of the setters of the C-tag writes through NULL on
  -- a frame that counts as untagged, and fails and leaves the frame as it was on each other.
  pub c_tag_setters_lem :
      (buf : Buffer) (n value : ℕ)
      → number_of_tags p buf ≡ done n
      → (c_tag_set_pcp p buf value ≡ c_tag_refused buf n)
        × (c_tag_set_dei p buf value ≡ c_tag_refused buf n)
        × (c_tag_set_vid p buf value ≡ c_tag_refused buf n)
  unfolding c_tag_set_pcp c_tag_set_dei c_tag_set_vid
  c_tag_setters_lem buf n value h =
      (c_tag_set_lem buf n _ h, c_tag_set_lem buf n _ h, c_tag_set_lem buf n _ h)

  -- For each frame whose type can be read, each of the setters of the S-tag goes through NULL on a
  -- frame that counts as having no tag or one, and fails and leaves the frame as it was on each
  -- other.
  pub s_tag_setters_lem :
      (buf : Buffer) (n value : ℕ)
      → number_of_tags p buf ≡ done n
      → (s_tag_set_pcp p buf value ≡ s_tag_refused buf n)
        × (s_tag_set_dei p buf value ≡ s_tag_refused buf n)
        × (s_tag_set_vid p buf value ≡ s_tag_refused buf n)
  unfolding s_tag_set_pcp s_tag_set_dei s_tag_set_vid
  s_tag_setters_lem buf n value h =
      (s_tag_set_lem buf n _ h, s_tag_set_lem buf n _ h, s_tag_set_lem buf n _ h)

  -- On a frame that is at least as long as an Ethernet header, if prvGetIPVersionAndOffset gives
  -- an offset and ucGetNumberOfTags a number n, then the offset is that of a frame with 0 tags if
  -- n is 0, with two tags if n is 1 and with one tag if n is 2: the two functions disagree on
  -- every tagged frame.
  pub offset-number_of_tags :
      (garbage : ℕ) (buf : Buffer) (version offset n : ℕ)
      → size_of_eth_header ≤ buf.data_length
      → get_ip_version_and_offset p garbage buf ≡ done (version, offset)
      → number_of_tags p buf ≡ done n
      → offset ≡ 14 + 4 * (if n == 0 then 0 else if n == 1 then 2 else 1)
  unfolding get_ip_version_and_offset number_of_tags
  offset-number_of_tags garbage buf version offset n long h e =
      let (frame_type, read, h') =
        >>=-eq-done (read16 p buf frame_type_offset)
          (λ frame_type.
            if p.ntohs frame_type == tpid_double_tag
            then (read16 p buf 20 >>= λ version. done (version, size_of_eth_header + 2 * 4))
            else if p.ntohs frame_type == tpid_default
            then (read16 p buf 16 >>= λ version. done (version, size_of_eth_header + 4))
            else done (garbage, size_of_eth_header))
          h in
      let not_short : ltb buf.data_length size_of_eth_header ≡ false = ground arith in
      let counted : done (
            if p.ntohs frame_type == tpid_double_tag
            then 1
            else if p.ntohs frame_type == tpid_default
            then 2
            else 0)
          ≡ done n =
        rw (not_short, read) at e in
      elim (Bool-cases (p.ntohs frame_type == tpid_double_tag)) [
        | inl double ↦
            let o = offset_of_version (read16 p buf 20) 22 version offset (rw (double) at h') in
            let c : done 1 ≡ done n = rw (double) at counted in grind arith
        | inr other ↦ elim (Bool-cases (p.ntohs frame_type == tpid_default)) [
          | inl single ↦
              let o =
                offset_of_version (read16 p buf 16) 18 version offset (rw (other, single) at h') in
              let c : done 2 ≡ done n = rw (other, single) at counted in grind arith
          | inr untagged ↦ grind arith
        ]
      ]
