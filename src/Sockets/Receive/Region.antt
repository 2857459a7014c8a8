-- ===== src/Sockets/Receive/Region.antt =====
-- The copy of bytes from one array in memory to another, in FreeRTOS_TSN_recvmsg
-- (source/FreeRTOS_TSN_Sockets.c).
use free_rtos_tsn_compatibil.Prelude.{
  ℕ, zero, suc, ◌+◌, ◌-◌, ◌≤◌, ◌<◌, ◌≡◌, ◌≢◌, refl, leb, ltb, ==-same, ◌&&◌, if◌then◌else◌, some,
  List, get_elem?, length, Bool-cases, inl, inr, ◌∙◌, arith,
}
use free_rtos_tsn_compatibil.State.{done, update}
use free_rtos_tsn_compatibil.Bytes.Each.{copy_in_each, copy_out_each}
use free_rtos_tsn_compatibil.Memory.{Memory}
use free_rtos_tsn_compatibil.Sockets.Receive.{copy_region}

-- An array is another, with so many bytes of a source in it.
abbrev pub Overwritten : List ℕ → List ℕ → ℕ → List ℕ → ℕ → ℕ → Type 0
Overwritten new old to_offset source from_offset n =
    (j : ℕ)
    → get_elem? new j ≡ (
        if leb to_offset j && ltb j (to_offset + n)
        then get_elem? source (from_offset + (j - to_offset))
        else get_elem? old j)

-- Only the array at one address has changed.
pub record Copied (m m' : Memory) (to : ℕ) (old : List ℕ) (to_offset : ℕ) (source : List ℕ)
    (from_offset n : ℕ) : Type 0 where
  pub new : List ℕ
  pub messages : m'.messages ≡ m.messages
  pub iovecs : m'.iovecs ≡ m.iovecs
  pub held : m'.bytes to ≡ some new
  pub same_length : length new ≡ length old
  pub each : Overwritten new old to_offset source from_offset n
  pub others : (a : ℕ) → a ≢ to → m'.bytes a ≡ m.bytes a

pub copy_region-Copied :
    (m : Memory) (to to_offset from from_offset n : ℕ) (old source : List ℕ)
    → m.bytes to ≡ some old
    → m.bytes from ≡ some source
    → to_offset + n ≤ length old
    → from_offset + n ≤ length source
    → (m' : Memory) × (copy_region m to to_offset from from_offset n ≡ done m')
      × Copied m m' to old to_offset source from_offset n
unfolding copy_region
copy_region-Copied m to to_offset from from_offset zero old source there held room inside = (
  m,
  refl,
  record {
    new = old;
    messages = refl;
    iovecs = refl;
    held = there;
    same_length = refl;
    each = λ j. ground arith;
    others = λ a ne. refl;
  },
)
copy_region-Copied m to to_offset from from_offset (suc n) old source there held room inside =
    let (out, read, size, from_each) = copy_out_each from_offset (suc n) source inside in
    let (new, wrote, len, to_each) = copy_in_each to_offset out old (omega arith) in
    (
      record m { bytes = update m.bytes to new },
      rw (held, read, there, wrote) refl,
      record {
        new = new;
        messages = refl;
        iovecs = refl;
        held = rw (==-same to) refl;
        same_length = len;
        each = λ j. whole j out new size (to_each j) (from_each (j - to_offset));
        others = λ a ne. ground arith;
      },
    )
  where
    whole :
        (j : ℕ) (out new : List ℕ)
        → length out ≡ suc n
        → get_elem? new j ≡ (
            if leb to_offset j && ltb j (to_offset + length out)
            then get_elem? out (j - to_offset)
            else get_elem? old j)
        → (j - to_offset < suc n
            → get_elem? out (j - to_offset) ≡ get_elem? source (from_offset + (j - to_offset)))
        → get_elem? new j ≡ (
            if leb to_offset j && ltb j (to_offset + suc n)
            then get_elem? source (from_offset + (j - to_offset))
            else get_elem? old j)
    whole j out new size e f = elim (Bool-cases (leb to_offset j && ltb j (to_offset + suc n))) [
      | inl within ↦
          let e' : get_elem? new j ≡ get_elem? out (j - to_offset) = rw (size, within) at e in
          rw (within) (e' ∙ f (ground arith))
      | inr outside ↦ rw (outside) (rw (size, outside) at e)
    ]
