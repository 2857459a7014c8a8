-- ===== src/Examples/FrameCases.antt =====
-- Frames at concrete inputs, on a little-endian platform.
use free_rtos_tsn_compatibil.Prelude.{
  inl, ℕ, zero, suc, if◌then◌else◌, ltb, get_elem?, ◌+◌, ◌*◌, ◌/◌, ◌%◌, ◌^◌, ◌<◌, ◌≡◌, refl, false,
  List, [], ◌∷◌, ◌++◌, arith,
}
use free_rtos_tsn_compatibil.State.{done}
use free_rtos_tsn_compatibil.Frame.{Platform, Buffer, read8, write8, read16}
use free_rtos_tsn_compatibil.DiffServ.{
  get_ip_version_and_offset, ds_class_get, set_dsclass_at, ds_class_set,
}
use free_rtos_tsn_compatibil.DiffServ.RoundTrip.{ds_class_get-set}
use free_rtos_tsn_compatibil.VlanTags.{
  get_pcp_from_tci, get_dei_from_tci, get_vid_from_tci, set_pcp_from_tci, not_present,
  number_of_tags, c_tag_get_pcp, c_tag_get_dei, c_tag_get_vid, c_tag_check_class, c_tag_set_pcp,
  c_tag_set_dei, c_tag_set_vid,
}
use free_rtos_tsn_compatibil.VlanTags.Tci.{get_pcp-set_pcp}
use free_rtos_tsn_compatibil.VlanTags.Absent.{
  c_tag_getters_lem, c_tag_setters_lem, offset-number_of_tags,
}
use free_rtos_tsn_compatibil.Wrapper.{Stripped, strip_vlan_tag}
use free_rtos_tsn_compatibil.Wrapper.Strip.{strip_vlan_tag_lem}

abbrev byte : ℕ → ℕ → ℕ
byte zero x = x % 256
byte (suc zero) x = x / 256 % 256
byte (suc (suc zero)) x = x / 65536 % 256
byte i x = x / 16777216

abbrev load_word : List ℕ → ℕ
load_word (a ∷ b ∷ c ∷ d ∷ []) = a + b * 256 + c * 65536 + d * 16777216
load_word bytes = 0

abbrev pub little_endian : Platform
little_endian = record {
  load16 = λ a b. a + b * 256;
  low_byte = λ x. x % 256;
  high_byte = λ x. x / 256;
  htons = λ x. x % 256 * 256 + x / 256;
  ntohs = λ x. x % 256 * 256 + x / 256;
  byte32 = byte;
  load32 = load_word;
  ipv4_frame_type = 0x0008;
  ipv6_frame_type = 0xdd86;
  load_store = λ x h. omega arith;
  ntohs_load = λ a b ha hb. omega arith;
  load_bytes32 = λ x h. omega arith;
  htons_bound = λ x h. omega arith;
  ntohs_htons = λ x h. omega arith;
  ipv4_bound = omega arith;
  distinct_types = λ e. omega arith;
}

-- The addresses of a frame.
abbrev addresses : List ℕ
addresses = 2 ∷ 0 ∷ 0 ∷ 0 ∷ 0 ∷ 1 ∷ 2 ∷ 0 ∷ 0 ∷ 0 ∷ 0 ∷ 2 ∷ []

-- An IPv4 packet, with the start of its header, behind a C-tag with the PCP 5 and the VID 7.
abbrev tagged : Buffer
tagged = record {
  data_length = 22;
  bytes = addresses ++ (0x81 ∷ 0x00 ∷ 0xa0 ∷ 0x07 ∷ 0x08 ∷ 0x00 ∷ 0x45 ∷ 0 ∷ 0 ∷ 20 ∷ []);
}

-- The same with the class 46.
abbrev expedited : Buffer
expedited = record {
  data_length = 22;
  bytes = addresses ++ (0x81 ∷ 0x00 ∷ 0xa0 ∷ 0x07 ∷ 0x08 ∷ 0x00 ∷ 0x45 ∷ 0xb8 ∷ 0 ∷ 20 ∷ []);
}

ds_class_get-set_example : ds_class_get little_endian 99 expedited ≡ done 46
unfolding ds_class_set get_ip_version_and_offset set_dsclass_at read16 read8 write8
ds_class_get-set_example =
    ds_class_get-set little_endian 0 99 tagged expedited 0x0081 46 (omega arith) refl (inl refl)
      refl

get_pcp-set_pcp_example :
    (get_pcp_from_tci (set_pcp_from_tci 0xa007 13) ≡ 5)
    × (get_dei_from_tci (set_pcp_from_tci 0xa007 13) ≡ 0)
    × (get_vid_from_tci (set_pcp_from_tci 0xa007 13) ≡ 7)
    × (set_pcp_from_tci 0xa007 13 < 2 ^ 16)
get_pcp-set_pcp_example = get_pcp-set_pcp 0xa007 13 (omega arith)

c_tag_getters_lem_example :
    (c_tag_get_pcp little_endian tagged ≡ done not_present)
    × (c_tag_get_dei little_endian tagged ≡ done not_present)
    × (c_tag_get_vid little_endian tagged ≡ done not_present)
    × (c_tag_check_class little_endian tagged 5 ≡ done false)
unfolding number_of_tags read16 read8
c_tag_getters_lem_example = c_tag_getters_lem little_endian tagged 2 5 refl

c_tag_setters_lem_example :
    (c_tag_set_pcp little_endian tagged 3 ≡ done (tagged, false))
    × (c_tag_set_dei little_endian tagged 3 ≡ done (tagged, false))
    × (c_tag_set_vid little_endian tagged 3 ≡ done (tagged, false))
unfolding number_of_tags read16 read8
c_tag_setters_lem_example = c_tag_setters_lem little_endian tagged 2 3 refl

offset-number_of_tags_example : 18 ≡ 14 + 4 * 1
unfolding number_of_tags get_ip_version_and_offset read16 read8
offset-number_of_tags_example =
    offset-number_of_tags little_endian 0 tagged 0x0008 18 2 (omega arith) refl refl

strip_vlan_tag_lem_example :
    (buf' : Buffer) × (stripped : Stripped) × (strip_vlan_tag little_endian tagged
      ≡ done (buf', stripped))
    × (stripped.num_tags ≡ 2)
    × (buf'.data_length + 8 ≡ 22)
    × ((j : ℕ)
        → j < buf'.data_length
        → get_elem? buf'.bytes j ≡ get_elem? tagged.bytes (if ltb j 12 then j else j + 8))
unfolding number_of_tags read16 read8
strip_vlan_tag_lem_example =
    strip_vlan_tag_lem little_endian tagged 2 refl (omega arith) (omega arith) (omega arith)
