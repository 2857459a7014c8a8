-- ===== src/Wrapper/Insert.antt =====
-- source/portable/NetworkInterface/Common/NetworkWrapper.c: the insertion of a VLAN tag into a
-- frame to be sent.
pub mod Room
use mathlib.Core.List.{append_assoc}
use free_rtos_tsn_compatibil.Prelude.{
  ℕ, ◌+◌, ◌-◌, ◌^◌, ◌<◌, ◌≡◌, refl, sym, ap, ◌∙◌, Bool, true, if◌then◌else◌, Option, none, some,
  List, [], ◌∷◌, ◌++◌, length, length-append, arith,
}
use free_rtos_tsn_compatibil.State.{Run, done, ◌>>=◌, u32}
use free_rtos_tsn_compatibil.Bytes.{copy_in, copy_out}
use free_rtos_tsn_compatibil.Bytes.Copy.{copy_in_at, copy_out_at, split_at}
use free_rtos_tsn_compatibil.Frame.{Platform, Buffer, frame_type_offset, size_of_tag}

-- What pxResizeNetworkBufferWithDescriptor returns, if it succeeds: whether the descriptor is the
-- old one, the length in the old descriptor after the call, and the memory of the frame.
pub record Resized : Type 0 where
  pub is_same : Bool
  pub old_length : ℕ
  pub memory : List ℕ

module _ (p : Platform) where
  -- `prvInsertVLANTag`; `none` is NULL, where the buffer is released. The count of the `memmove`
  -- is taken from the old descriptor, after the length of the new one was set.
  unfoldable pub insert_vlan_tag : Buffer → Option Resized → ℕ → ℕ → Run (Option Buffer)
  insert_vlan_tag buf none tci tpid = done none
  insert_vlan_tag buf (some r) tci tpid =
      let size = u32 (buf.data_length + size_of_tag) in
      let old = if r.is_same then size else r.old_length in
      copy_out frame_type_offset (u32 (old + 2 ^ 32 - frame_type_offset)) r.memory >>= λ tail.
      copy_in (frame_type_offset + size_of_tag) tail r.memory >>= λ b1.
      copy_in frame_type_offset (p.low_byte (p.htons tpid) ∷ p.high_byte (p.htons tpid) ∷ []) b1
      >>= λ b2.
          copy_in (frame_type_offset + 2)
            (p.low_byte (p.htons tci) ∷ p.high_byte (p.htons tci) ∷ []) b2
          >>= λ b3. done (some (record { data_length = size; bytes = b3 }))

  -- The four bytes of a tag, as the frame holds it.
  abbrev pub tag : ℕ → ℕ → List ℕ
  tag tci tpid =
      p.low_byte (p.htons tpid)
      ∷ p.high_byte (p.htons tpid)
      ∷ p.low_byte (p.htons tci)
      ∷ p.high_byte (p.htons tci)
      ∷ []

  insert_run :
      (buf : Buffer) (r : Resized) (tail b1 b2 b3 : List ℕ) (tci tpid size old : ℕ)
      → u32 (buf.data_length + 4) ≡ size
      → u32 ((if r.is_same then size else r.old_length) + 2 ^ 32 - 12) ≡ old
      → copy_out 12 old r.memory ≡ done tail
      → copy_in 16 tail r.memory ≡ done b1
      → copy_in 12 (p.low_byte (p.htons tpid) ∷ p.high_byte (p.htons tpid) ∷ []) b1 ≡ done b2
      → copy_in 14 (p.low_byte (p.htons tci) ∷ p.high_byte (p.htons tci) ∷ []) b2 ≡ done b3
      → insert_vlan_tag buf (some r) tci tpid
        ≡ done (some (record { data_length = size; bytes = b3 }))
  unfolding insert_vlan_tag
  insert_run buf r tail b1 b2 b3 tci tpid size old s n r1 r2 r3 r4 = rw (s, n, r1, r2, r3, r4) refl

  -- The bytes of a copy of `tail`, that starts at the byte 12, four bytes further on, and of a
  -- tag.
  moved_lem :
      (addresses tail extra rest : List ℕ) (t0 t1 t2 t3 : ℕ)
      → length addresses ≡ 12
      → length extra ≡ 4
      → (b1 : List ℕ) × (b2 : List ℕ) × (copy_in 16 tail (addresses ++ (tail ++ (extra ++ rest)))
          ≡ done b1)
        × (copy_in 12 (t0 ∷ t1 ∷ []) b1 ≡ done b2)
        × (copy_in 14 (t2 ∷ t3 ∷ []) b2 ≡ done (addresses ++ (t0 ∷ t1 ∷ t2 ∷ t3 ∷ (tail ++ rest))))
  moved_lem addresses tail extra rest t0 t1 t2 t3 la le =
      let (f4, old, e, l4) = split_at 4 (tail ++ extra) (omega (arith, length-append tail extra)) in
      go f4 old l4 e
    where
      same :
          (f4 old : List ℕ)
          → tail ++ extra ≡ f4 ++ old
          → addresses ++ (tail ++ (extra ++ rest)) ≡ (addresses ++ f4) ++ (old ++ rest)
      same f4 old e =
          ap (λ l. addresses ++ l)
            (sym (append_assoc tail extra rest) ∙ ap (λ l. l ++ rest) e ∙ append_assoc f4 old rest)
          ∙ sym (append_assoc addresses f4 (old ++ rest))

      same_length :
          (f4 old : List ℕ) → length f4 ≡ 4 → tail ++ extra ≡ f4 ++ old → length old ≡ length tail
      same_length f4 old l4 e =
          omega (arith, ap length e, length-append tail extra, length-append f4 old)

      go :
          (f4 old : List ℕ)
          → length f4 ≡ 4
          → tail ++ extra ≡ f4 ++ old
          → (b1 : List ℕ) × (b2 : List ℕ) × (copy_in 16 tail
                (addresses ++ (tail ++ (extra ++ rest)))
              ≡ done b1)
            × (copy_in 12 (t0 ∷ t1 ∷ []) b1 ≡ done b2)
            × (copy_in 14 (t2 ∷ t3 ∷ []) b2
                ≡ done (addresses ++ (t0 ∷ t1 ∷ t2 ∷ t3 ∷ (tail ++ rest))))
      go (x0 ∷ x1 ∷ x2 ∷ x3 ∷ []) old l4 e = (
        addresses ++ ((x0 ∷ x1 ∷ []) ++ (x2 ∷ x3 ∷ (tail ++ rest))),
        addresses ++ ((t0 ∷ t1 ∷ []) ++ (x2 ∷ x3 ∷ (tail ++ rest))),
        ap (copy_in 16 tail) (same (x0 ∷ x1 ∷ x2 ∷ x3 ∷ []) old e)
            ∙ copy_in_at 16 (addresses ++ (x0 ∷ x1 ∷ x2 ∷ x3 ∷ [])) tail old rest
                (omega (arith, length-append addresses (x0 ∷ x1 ∷ x2 ∷ x3 ∷ [])))
                (same_length (x0 ∷ x1 ∷ x2 ∷ x3 ∷ []) old refl e)
            ∙ ap done (append_assoc addresses (x0 ∷ x1 ∷ x2 ∷ x3 ∷ []) (tail ++ rest)),
        copy_in_at 12 addresses (t0 ∷ t1 ∷ []) (x0 ∷ x1 ∷ []) (x2 ∷ x3 ∷ (tail ++ rest)) la refl,
        ap (copy_in 14 (t2 ∷ t3 ∷ []))
              (sym (append_assoc addresses (t0 ∷ t1 ∷ []) (x2 ∷ x3 ∷ (tail ++ rest))))
            ∙ copy_in_at 14 (addresses ++ (t0 ∷ t1 ∷ [])) (t2 ∷ t3 ∷ []) (x2 ∷ x3 ∷ [])
                (tail ++ rest) (omega (arith, length-append addresses (t0 ∷ t1 ∷ []))) refl
            ∙ ap done (append_assoc addresses (t0 ∷ t1 ∷ []) (t2 ∷ t3 ∷ (tail ++ rest))),
      )
      go f4 old l4 e = let never : ⊥ = omega arith in elim never [ ]

  -- Where the network buffer is resized in place, a tag is put behind the addresses of a frame,
  -- and the length grows by 4. The memory holds the frame, as before, and at least 8 bytes more:
  -- all of the frame moves up by 4 bytes, and with it the 4 bytes behind it, over the 4 bytes
  -- behind the new length.
  pub insert_vlan_tag_lem :
      (buf : Buffer) (old_length : ℕ) (addresses frame next over rest : List ℕ) (tci tpid : ℕ)
      → length addresses ≡ 12
      → length next ≡ 4
      → length over ≡ 4
      → buf.data_length ≡ 12 + length frame
      → 16 + length frame < 2 ^ 32
      → insert_vlan_tag buf
          (some (record {
            is_same = true;
            old_length = old_length;
            memory = addresses ++ (frame ++ (next ++ (over ++ rest)));
          }))
          tci
          tpid
        ≡ done (
            some (record {
              data_length = 16 + length frame;
              bytes = addresses ++ (tag tci tpid ++ (frame ++ (next ++ rest)));
            }))
  insert_vlan_tag_lem buf old_length addresses frame next over rest tci tpid la ln lo size small =
      let tail = frame ++ next in
      let joined : frame ++ (next ++ (over ++ rest)) ≡ tail ++ (over ++ rest) =
        sym (append_assoc frame next (over ++ rest)) in
      let (b1, b2, r2, r3, r4) =
        moved_lem addresses tail over rest (p.low_byte (p.htons tpid)) (p.high_byte (p.htons tpid))
          (p.low_byte (p.htons tci)) (p.high_byte (p.htons tci)) la lo in
      let wrap : List ℕ → Run (Option Buffer) = λ l. done (
        some
          (record { data_length = 16 + length frame; bytes = addresses ++ (tag tci tpid ++ l) })) in
      rw (joined) (
        insert_run buf
          (record {
            is_same = true;
            old_length = old_length;
            memory = addresses ++ (tail ++ (over ++ rest));
          })
          tail b1 b2 (addresses ++ (tag tci tpid ++ (tail ++ rest))) tci tpid (16 + length frame)
          (length tail) (omega arith) (omega (arith, length-append frame next))
          (copy_out_at 12 (length tail) addresses tail (over ++ rest) la refl) r2 r3 r4
        ∙ ap wrap (append_assoc frame next rest))
