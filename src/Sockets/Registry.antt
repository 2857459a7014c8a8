-- ===== src/Sockets/Registry.antt =====
-- The list of bound TSN sockets (source/FreeRTOS_TSN_Sockets.c): which socket a port leads to
-- after a bind and after a close.
use native.Mathlib.Decide.{ℕ_discrete}
use free_rtos_tsn_compatibil.Prelude.{
  ℕ, ◌≡◌, ◌≢◌, refl, ◌⊎◌, inl, inr, true, false, ◌==◌, Bool-cases, none, some, List, [], ◌∷◌, ◌++◌,
  All, All-imp, Occurs, arith,
}
use free_rtos_tsn_compatibil.Kernel.{Kernel, PointerQueues}
use free_rtos_tsn_compatibil.State.{done, update, release}
use free_rtos_tsn_compatibil.Frame.{Platform}
use free_rtos_tsn_compatibil.World.{BaseSocket, TsnSocket, World, Outcome, returned, invalid_socket}
use free_rtos_tsn_compatibil.Sockets.{
  remove, find_socket, socket_from_port, tsn_bind, tsn_closesocket,
}

-- No number stands twice in the list.
abbrev pub IsDistinct : List ℕ → Type 0
IsDistinct [] = Unit {0}
IsDistinct (x ∷ xs) = ¬ (Occurs x xs) × IsDistinct xs

remove-Occurs : (s a : ℕ) (xs : List ℕ) → Occurs a (remove s xs) → Occurs a xs
unfolding remove
remove-Occurs s a [] o = o
remove-Occurs s a (x ∷ xs) o = elim (Bool-cases (s == x)) [
  | inl same ↦ inr (rw (same) at o)
  | inr other ↦
      let o' : (a ≡ x) ⊎ Occurs a (remove s xs) = rw (other) at o in
      elim o' [ inl e ↦ inl e | inr r ↦ inr (remove-Occurs s a xs r) ]
]

remove-absent : (s : ℕ) (xs : List ℕ) → IsDistinct xs → ¬ (Occurs s (remove s xs))
unfolding remove
remove-absent s [] d o = o
remove-absent s (x ∷ xs) (fresh, d) o = elim (Bool-cases (s == x)) [
  | inl same ↦
      let o' : Occurs s xs = rw (same) at o in
      let here : s ≡ x = ground arith in fresh (rw (← here) o')
  | inr other ↦
      let o' : (s ≡ x) ⊎ Occurs s (remove s xs) = rw (other) at o in
      elim o' [ inl e ↦ ground arith | inr r ↦ remove-absent s xs d r ]
]

module _ (k : Kernel) (e : PointerQueues) where
  -- Every address in the list leads to a socket.
  abbrev pub AreSockets : World k e → List ℕ → Type 0
  AreSockets w listed = All (λ a. (t : TsnSocket e) × (w.sockets a ≡ some t)) listed

  -- No socket in the list has this port.
  abbrev pub IsFreePort : World k e → ℕ → List ℕ → Type 0
  IsFreePort w key listed =
      All (λ a. (t : TsnSocket e) → w.sockets a ≡ some t → t.bound_port ≢ key) listed

  find_bound :
      (w w' : World k e) (s key : ℕ) (socket' : TsnSocket e) (listed : List ℕ)
      → w'.sockets ≡ update w.sockets s socket'
      → socket'.bound_port ≡ key
      → AreSockets w listed
      → IsFreePort w key listed
      → find_socket k e w' key (listed ++ (s ∷ [])) ≡ done (some (socket'.base, s))
  unfolding find_socket
  find_bound w w' s key socket' [] u same a f = rw (u) (ground arith)
  find_bound w w' s key socket' (x ∷ xs) u same ((t, there), a) (f, fs) =
      let rest = find_bound w w' s key socket' xs u same a fs in
      elim (ℕ_discrete s x) [
        | yes here ↦ let read : w'.sockets x ≡ some socket' = rw (u) (ground arith) in ground arith
        | no other ↦
            let read : w'.sockets x ≡ some t = rw (u) (ground arith) in
            ground (arith, rest, f t there)
      ]

  -- If FreeRTOS_bind succeeds on a socket whose new port no listed socket has, then
  -- FreeRTOS_TSN_bind returns 0, the list has one more socket, at its end, and vSocketFromPort
  -- gives for that port the socket and its base socket.
  pub tsn_bind-socket_from_port :
      (p : Platform) (lookup : ℕ → ℕ) (w : World k e) (base' : BaseSocket) (s : ℕ)
      (socket : TsnSocket e) (listed : List ℕ)
      → w.sockets s ≡ some socket
      → w.bound ≡ some listed
      → AreSockets w listed
      → IsFreePort w (p.htons base'.local_port) listed
      → (w' : World k e) × (tsn_bind k e p w (returned 0) base' s ≡ done (w', returned 0))
        × (w'.bound ≡ some (listed ++ (s ∷ [])))
        × (socket_from_port k e lookup w' (p.htons base'.local_port) ≡ done (some (socket.base, s)))
  unfolding tsn_bind socket_from_port
  tsn_bind-socket_from_port p lookup w base' s socket listed there list a f =
      let socket' = record socket { bound_port = p.htons base'.local_port; is_listed = true } in
      let w' = record w {
        bases = update w.bases socket.base base';
        sockets = update w.sockets s socket';
        bound = some (listed ++ (s ∷ []));
      } in
      (
        w',
        rw (there, list) refl,
        refl,
        rw (find_bound w w' s (p.htons base'.local_port) socket' listed refl refl a f) refl,
      )

  find_cases :
      (w : World k e) (key : ℕ) (listed : List ℕ)
      → AreSockets w listed
      → (find_socket k e w key listed ≡ done none)
        ⊎ ((base : ℕ) × (t : ℕ) × (find_socket k e w key listed ≡ done (some (base, t)))
            × Occurs t listed)
  unfolding find_socket
  find_cases w key [] a = inl refl
  find_cases w key (x ∷ xs) ((t, there), a) = elim (Bool-cases (t.bound_port == key)) [
    | inl hit ↦ inr (t.base, x, ground arith, inl refl)
    | inr miss ↦ elim (find_cases w key xs a) [
      | inl run ↦ inl (ground arith)
      | inr (base, y, run, there') ↦ inr (base, y, ground arith, inr there')
    ]
  ]

  AreSockets-remove :
      (w w' : World k e) (s : ℕ) (socket' : TsnSocket e) (listed : List ℕ)
      → w'.sockets ≡ update w.sockets s socket'
      → AreSockets w listed
      → AreSockets w' (remove s listed)
  unfolding remove
  AreSockets-remove w w' s socket' [] u a = tt
  AreSockets-remove w w' s socket' (x ∷ xs) u ((t, there), a) = elim (Bool-cases (s == x)) [
    | inl same ↦ rw (same) (All-imp _ _ xs (λ y (v, h). kept y v h) a)
    | inr other ↦ rw (other) ((t, rw (u) (ground arith)), AreSockets-remove w w' s socket' xs u a)
  ]
    where
      kept :
          (y : ℕ) (v : TsnSocket e)
          → w.sockets y ≡ some v
          → (t' : TsnSocket e) × (w'.sockets y ≡ some t')
      kept y v h = elim (Bool-cases (s == y)) [
        | inl here ↦ (socket', rw (u, here) refl)
        | inr there' ↦ (v, rw (u, there') h)
      ]

  -- With a list of distinct sockets, FreeRTOS_TSN_closesocket of a socket that is in it gives what
  -- FreeRTOS_closesocket gives, and after it vSocketFromPort on any port gives another TSN socket
  -- of the list, or what the lookup of FreeRTOS-Plus-TCP gives, with no TSN socket. The memory of
  -- the socket stays allocated.
  pub tsn_closesocket-socket_from_port :
      (lookup : ℕ → ℕ) (w : World k e) (result : Outcome) (s : ℕ) (socket : TsnSocket e)
      (listed : List ℕ)
      → s ≢ invalid_socket
      → w.sockets s ≡ some socket
      → socket.is_listed ≡ true
      → w.bound ≡ some listed
      → AreSockets w listed
      → IsDistinct listed
      → (w' : World k e) × (tsn_closesocket k e w result s ≡ done (w', result))
        × (w'.sockets s ≡ some (record socket { is_listed = false }))
        × ((key : ℕ)
            → (socket_from_port k e lookup w' key ≡ done (some (lookup key, 0)))
              ⊎ ((base : ℕ) × (t : ℕ) × (socket_from_port k e lookup w' key ≡ done (some (base, t)))
                  × (t ≢ s)
                  × Occurs t listed))
  unfolding tsn_closesocket socket_from_port
  tsn_closesocket-socket_from_port lookup w result s socket listed ne there listed' list a d =
      let socket' = record socket { is_listed = false } in
      let w' = record w {
        sockets = update w.sockets s socket';
        bound = some (remove s listed);
        bases = release w.bases socket.base;
      } in
      (
        w',
        ground arith,
        ground arith,
        λ key.
            elim (find_cases w' key (remove s listed)
              (AreSockets-remove w w' s socket' listed refl a)) [
                | inl run ↦ inl (rw (run) refl)
                | inr (base, t, run, o) ↦ inr (
                  base,
                  t,
                  rw (run) refl,
                  λ same. remove-absent s listed d (rw (same) at o),
                  remove-Occurs s t listed o,
                )
              ],
      )
