-- ===== src/Frame.antt =====
-- Ethernet frames in memory, as the code reads and writes them: the bytes that `pucEthernetBuffer`
-- points to, and what the platform does with a uint16_t. FreeRTOS_htons, FreeRTOS_ntohs and the
-- frame type constants come from FreeRTOS-Plus-TCP.
use free_rtos_tsn_compatibil.Prelude.{
  ℕ, ◌+◌, ◌*◌, ◌^◌, ◌<◌, ◌≡◌, ◌≢◌, refl, List, [], ◌∷◌, get_elem?, set, length,
}
use free_rtos_tsn_compatibil.State.{Run, done, ◌>>=◌, deref}

-- How a uint16_t stands in two bytes and a uint32_t in four, the conversion from and to network
-- order (big-endian), and the two frame types, which are in network order.
pub record Platform : Type 0 where
  pub load16 : ℕ → ℕ → ℕ
  pub low_byte : ℕ → ℕ
  pub high_byte : ℕ → ℕ
  pub htons : ℕ → ℕ
  pub ntohs : ℕ → ℕ
  pub byte32 : ℕ → ℕ → ℕ
  pub load32 : List ℕ → ℕ
  pub ipv4_frame_type : ℕ
  pub ipv6_frame_type : ℕ
  pub load_store : (x : ℕ) → x < 2 ^ 16 → load16 (low_byte x) (high_byte x) ≡ x
  pub ntohs_load : (a b : ℕ) → a < 256 → b < 256 → ntohs (load16 a b) ≡ a * 256 + b
  pub load_bytes32 :
      (x : ℕ) → x < 2 ^ 32 → load32 (byte32 0 x ∷ byte32 1 x ∷ byte32 2 x ∷ byte32 3 x ∷ []) ≡ x
  pub htons_bound : (x : ℕ) → x < 2 ^ 16 → htons x < 2 ^ 16
  pub ntohs_htons : (x : ℕ) → x < 2 ^ 16 → ntohs (htons x) ≡ x
  pub ipv4_bound : ipv4_frame_type < 2 ^ 16
  pub distinct_types : ipv4_frame_type ≢ ipv6_frame_type

-- A uint32_t in memory.
unfoldable pub store32 : Platform → ℕ → List ℕ
store32 p x = p.byte32 0 x ∷ p.byte32 1 x ∷ p.byte32 2 x ∷ p.byte32 3 x ∷ []

pub length-store32 : (p : Platform) (x : ℕ) → length (store32 p x) ≡ 4
unfolding store32
length-store32 p x = refl

pub load32-store32 : (p : Platform) (x : ℕ) → x < 2 ^ 32 → p.load32 (store32 p x) ≡ x
unfolding store32
load32-store32 p x h = p.load_bytes32 x h

-- A network buffer: `xDataLength` and the bytes.
pub record Buffer : Type 0 where
  pub data_length : ℕ
  pub bytes : List ℕ

-- The field `usFrameType` of an Ethernet header, and the sizes of the header and of a tag.
abbrev pub frame_type_offset : ℕ
frame_type_offset = 12

abbrev pub size_of_eth_header : ℕ
size_of_eth_header = 14

abbrev pub size_of_tag : ℕ
size_of_tag = 4

unfoldable pub read8 : Buffer → ℕ → Run ℕ
read8 buf i = deref (get_elem? buf.bytes i)

-- A write outside of the buffer is a fault.
unfoldable pub write8 : Buffer → ℕ → ℕ → Run Buffer
write8 buf i v =
    deref (get_elem? buf.bytes i) >>= λ old. done (record buf { bytes = set buf.bytes i v })

module _ (p : Platform) where
  unfoldable pub read16 : Buffer → ℕ → Run ℕ
  unfolding read8
  read16 buf i = read8 buf i >>= λ a. read8 buf (i + 1) >>= λ b. done (p.load16 a b)

  unfoldable pub write16 : Buffer → ℕ → ℕ → Run Buffer
  unfolding write8
  write16 buf i v = write8 buf i (p.low_byte v) >>= λ buf'. write8 buf' (i + 1) (p.high_byte v)
