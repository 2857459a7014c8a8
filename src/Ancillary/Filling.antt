-- ===== src/Ancillary/Filling.antt =====
-- What the loops of `xAncillaryMsgControlFill` (source/FreeRTOS_TSN_Ancillary.c) write.
use mathlib.Core.List.{append_assoc}
use mathlib.Core.Path.{subst}
use free_rtos_tsn_compatibil.Prelude.{
  ℕ, ◌+◌, ◌-◌, ◌*◌, ◌/◌, ◌^◌, ◌≤◌, ◌<◌, ◌≡◌, refl, ap, sym, ◌∙◌, Option, some, List, [], ◌∷◌, ◌++◌,
  length, length-append, arith,
}
use free_rtos_tsn_compatibil.State.{done}
use free_rtos_tsn_compatibil.Bytes.{copy_in}
use free_rtos_tsn_compatibil.Bytes.Copy.{copy_in_at, split_at}
use free_rtos_tsn_compatibil.Frame.{Platform, store32, length-store32}
use free_rtos_tsn_compatibil.Ancillary.{ControlMessage, cmsg_len, put_message, put_messages}
use free_rtos_tsn_compatibil.Ancillary.Entries.{
  needed, IsControl, header_at, next_header_lem, entry, longer_front, length-longer_front,
  longer_front-append,
}

nil_of_length : (bytes : List ℕ) → length bytes ≡ 0 → bytes ≡ []
nil_of_length [] h = refl
nil_of_length (x ∷ bytes) h = absurd (omega arith)

-- The places of one message in the bytes that are left: three words, the data and its padding.
record Places (len pad_len : ℕ) (bytes : List ℕ) : Type 0 where
  o1 : List ℕ
  o2 : List ℕ
  o3 : List ℕ
  o4 : List ℕ
  pad : List ℕ
  rest : List ℕ
  parts : bytes ≡ o1 ++ (o2 ++ (o3 ++ (o4 ++ (pad ++ rest))))
  length_o1 : length o1 ≡ 4
  length_o2 : length o2 ≡ 4
  length_o3 : length o3 ≡ 4
  length_o4 : length o4 ≡ len
  length_pad : length pad ≡ pad_len
  length_rest : length rest + (12 + (len + pad_len)) ≡ length bytes

split_rest :
    (n m : ℕ) (bytes : List ℕ)
    → n + m ≤ length bytes
    → (a : List ℕ) × (b : List ℕ) × (bytes ≡ a ++ b)
      × (length a ≡ n)
      × (m ≤ length b)
      × (length b + n ≡ length bytes)
split_rest n m bytes h =
    let (a, b, e, l) = split_at n bytes (omega arith) in
    (
      a,
      b,
      e,
      l,
      omega (arith, ap length e, length-append a b),
      omega (arith, ap length e, length-append a b),
    )

six_parts :
    (len pad_len : ℕ) (bytes : List ℕ)
    → 12 + (len + pad_len) ≤ length bytes
    → Places len pad_len bytes
six_parts len pad_len bytes h =
    let (a, r1, e1, l1, m1, n1) = split_rest 4 (8 + (len + pad_len)) bytes (omega arith) in
    let (b, r2, e2, l2, m2, n2) = split_rest 4 (4 + (len + pad_len)) r1 (omega arith) in
    let (c, r3, e3, l3, m3, n3) = split_rest 4 (len + pad_len) r2 (omega arith) in
    let (d, r4, e4, l4, m4, n4) = split_rest len pad_len r3 m3 in
    let (x, r5, e5, l5, m5, n5) = split_rest pad_len 0 r4 (omega arith) in
    record {
      o1 = a;
      o2 = b;
      o3 = c;
      o4 = d;
      pad = x;
      rest = r5;
      parts =
          e1
          ∙ ap (λ r. a ++ r)
              (e2 ∙ ap (λ r. b ++ r) (e3 ∙ ap (λ r. c ++ r) (e4 ∙ ap (λ r. d ++ r) e5)));
      length_o1 = l1;
      length_o2 = l2;
      length_o3 = l3;
      length_o4 = l4;
      length_pad = l5;
      length_rest = omega arith;
    }

subst2 :
    {A B : Type 0} (P : A → B → Type 0) {a a' : A} {b b' : B} → a ≡ a' → b ≡ b' → P a b → P a' b'
subst2 P {a} {a'} {b} {b'} e e' h = subst (λ x. P x b') e (subst (λ y. P a y) e' h)

module _ (p : Platform) where
  put_message_lem :
      (c : ControlMessage) (front o1 o2 o3 o4 rest : List ℕ)
      → length o1 ≡ 4
      → length o2 ≡ 4
      → length o3 ≡ 4
      → length o4 ≡ length c.payload
      → put_message p c (length front) (front ++ (o1 ++ (o2 ++ (o3 ++ (o4 ++ rest)))))
        ≡ done (
            front
            ++ (store32 p (cmsg_len (length c.payload))
                ++ (store32 p c.level ++ (store32 p c.kind ++ (c.payload ++ rest)))))
  unfolding put_message
  put_message_lem c front o1 o2 o3 o4 rest l1 l2 l3 l4 =
      let s1 = store32 p (cmsg_len (length c.payload)) in
      let s2 = store32 p c.level in
      let s3 = store32 p c.kind in
      let n1 : length s1 ≡ 4 = length-store32 p (cmsg_len (length c.payload)) in
      let n2 : length s2 ≡ 4 = length-store32 p c.level in
      let n3 : length s3 ≡ 4 = length-store32 p c.kind in
      let at = length front in
      let c1 = copy_in_at at front s1 o1 (o2 ++ (o3 ++ (o4 ++ rest))) refl (l1 ∙ sym n1) in
      let c2 : copy_in (at + 4) s2 (front ++ (s1 ++ (o2 ++ (o3 ++ (o4 ++ rest)))))
          ≡ done (front ++ (s1 ++ (s2 ++ (o3 ++ (o4 ++ rest))))) =
        simp append_assoc at (
          copy_in_at (at + 4) (front ++ s1) s2 o2 (o3 ++ (o4 ++ rest))
            (omega (arith, length-append front s1)) (l2 ∙ sym n2)) in
      let c3 : copy_in (at + 8) s3 (front ++ (s1 ++ (s2 ++ (o3 ++ (o4 ++ rest)))))
          ≡ done (front ++ (s1 ++ (s2 ++ (s3 ++ (o4 ++ rest))))) =
        simp append_assoc at (
          copy_in_at (at + 8) (front ++ (s1 ++ s2)) s3 o3 (o4 ++ rest)
            (omega (arith, length-append front (s1 ++ s2), length-append s1 s2)) (l3 ∙ sym n3)) in
      let c4 : copy_in (at + 12) c.payload (front ++ (s1 ++ (s2 ++ (s3 ++ (o4 ++ rest)))))
          ≡ done (front ++ (s1 ++ (s2 ++ (s3 ++ (c.payload ++ rest))))) =
        simp append_assoc at (
          copy_in_at (at + 12) (front ++ (s1 ++ (s2 ++ s3))) c.payload o4 rest
            (omega (
              arith,
              length-append front (s1 ++ (s2 ++ s3)),
              length-append s1 (s2 ++ s3),
              length-append s2 s3,
            ))
            l4) in
      rw (c1, c2, c3, c4) refl

  put_messages-cons :
      (c : ControlMessage) (cs : List ControlMessage) (front bytes : List ℕ) (pad_len size : ℕ)
      (x : Places (length c.payload) pad_len bytes) (r : Option (List ℕ))
      → 12 + (length c.payload + 3) / 4 * 4 < 2 ^ 32
      → length front + 12 ≤ size
      → put_messages p cs
          (header_at size (length front + (12 + (length c.payload + 3) / 4 * 4)))
          size
          (front ++ entry p c x.pad x.rest)
        ≡ done r
      → put_messages p (c ∷ cs) (header_at size (length front)) size (front ++ bytes) ≡ done r
  unfolding put_messages
  put_messages-cons c cs front bytes pad_len size x r small fits run =
      let room : header_at size (length front) ≡ some (length front) = ground arith in
      let put =
        put_message_lem c front x.o1 x.o2 x.o3 x.o4 (x.pad ++ x.rest) x.length_o1 x.length_o2
          x.length_o3 x.length_o4 in
      let after =
        next_header_lem p c front
          (store32 p c.level ++ (store32 p c.kind ++ (c.payload ++ (x.pad ++ x.rest)))) size
          small in
      rw (x.parts, room, put, after) run

  -- What `put_messages` does to enough room behind a front.
  unfoldable pub Fills : List ControlMessage → ℕ → Type 0
  Fills cs size =
      (at : ℕ) (front bytes : List ℕ)
      → length front ≡ at
      → length bytes ≡ needed cs
      → at + needed cs ≡ size
      → (bytes' : List ℕ) × (put_messages p cs (header_at size at) size (front ++ bytes)
          ≡ done (some (front ++ bytes')))
        × IsControl p cs bytes'

  Fills-cons :
      (c : ControlMessage) (cs : List ControlMessage) (front bytes : List ℕ) (pad_len size : ℕ)
      (x : Places (length c.payload) pad_len bytes)
      → length c.payload + pad_len ≡ (length c.payload + 3) / 4 * 4
      → length bytes ≡ needed (c ∷ cs)
      → length front + needed (c ∷ cs) ≡ size
      → size < 2 ^ 32
      → Fills cs size
      → (bytes' : List ℕ) × (put_messages p
            (c ∷ cs)
            (header_at size (length front))
            size
            (front ++ bytes)
          ≡ done (some (front ++ bytes')))
        × IsControl p (c ∷ cs) bytes'
  unfolding needed IsControl Fills
  Fills-cons c cs front bytes pad_len size x pads l e h next =
      let (bytes', run, control) =
        next (length front + (12 + (length c.payload + 3) / 4 * 4)) (longer_front p c front x.pad)
          x.rest (omega (arith, length-longer_front p c front x.pad, x.length_pad))
          (omega (arith, x.length_rest)) (omega arith) in
      (
        entry p c x.pad bytes',
        put_messages-cons c cs front bytes pad_len size x (some (front ++ entry p c x.pad bytes'))
            (omega arith) (omega arith)
            (subst2
              (λ b b'.
                put_messages p cs
                  (header_at size (length front + (12 + (length c.payload + 3) / 4 * 4))) size b
                ≡ done (some b'))
              (longer_front-append p c front x.pad x.rest)
              (longer_front-append p c front x.pad bytes') run),
        (x.pad, bytes', refl, omega (arith, x.length_pad), control),
      )

  pub put_messages_lem : (cs : List ControlMessage) (size : ℕ) → size < 2 ^ 32 → Fills cs size
  unfolding put_messages needed IsControl Fills
  put_messages_lem [] size h at front bytes f l e =
      ([], ap (λ b. done (some (front ++ b))) (nil_of_length bytes l), refl)
  put_messages_lem (c ∷ cs) size h at front bytes f l e =
      let n = (length c.payload + 3) / 4 * 4 in
      rw (← f) (
        Fills-cons c cs front bytes (n - length c.payload) size
          (six_parts (length c.payload) (n - length c.payload) bytes (omega arith)) (omega arith) l
          (omega arith) h (put_messages_lem cs size h))
