-- ===== src/Server/Frame/Read.antt =====
-- What `read` takes off a stream, however the platform cuts it into pieces.
use waterproof_wrapper.Base.{
  ℕ, zero, suc, ◌-◌, ◌≤◌, ◌<◌, ◌≡◌, ◌≢◌, refl, sym, ap, ◌∙◌, arith, [], ◌∷◌, ◌++◌, append-nil,
  append_assoc, Text, length, drop, split_front, length-append, length-drop,
}
use waterproof_wrapper.Platform.{Api, IsStream, IsReliable, Received, received, recv_failed}
use waterproof_wrapper.Server.Frame.{
  Outcome, done, stuck, at_most_buffer, whole, after_recv, recv_loop,
}

-- What the loops ask of `recv` in a round: some bytes, and no more than are left.
abbrev pub IsSize : (ℕ → ℕ) → Type 0
IsSize size = (n : ℕ) → 0 < n → (0 < size n) × (size n ≤ n)

pub whole-IsSize : IsSize whole
whole-IsSize n h = (h, omega arith)

pub at_most_buffer-IsSize : IsSize at_most_buffer
at_most_buffer-IsSize n h = ground arith

module _ (a : Api) where
  open a use {World, recv}

  after_recv-ne-stuck :
      (client n : ℕ) (got : Text) (next : ℕ → Text → World → Outcome Text × World) (r : Received)
      (w : World)
      → ((m : ℕ) (t : Text) (w' : World) → m < n → (next m t w').0 ≢ stuck)
      → 0 < n
      → (after_recv a client n got next r w).0 ≢ stuck
  unfolding after_recv
  after_recv-ne-stuck client n got next (received []) w h p = λ e. cc
  after_recv-ne-stuck client n got next (received (b ∷ bytes)) w h p = h _ _ w (omega arith)
  after_recv-ne-stuck client n got next (recv_failed e) w h p = ground arith

  -- A receiving loop ends if it may run as often as there are bytes to be read, whatever the calls of
  -- the platform come to: more rounds are not needed.
  pub recv_loop-ne-stuck :
      (fuel : ℕ) (size : ℕ → ℕ) (client n : ℕ) (got : Text) (w : World)
      → n ≤ fuel
      → (recv_loop a fuel size client n got w).0 ≢ stuck
  unfolding recv_loop
  recv_loop-ne-stuck zero size client zero got w h = λ e. cc
  recv_loop-ne-stuck (suc fuel) size client zero got w h = λ e. cc
  recv_loop-ne-stuck zero size client (suc n) got w h = absurd (omega arith)
  recv_loop-ne-stuck (suc fuel) size client (suc n) got w h =
      after_recv-ne-stuck client (suc n) got (recv_loop a fuel size client) _ _
        (λ m t w' lt. recv_loop-ne-stuck fuel size client m t w' (omega arith)) (omega arith)

  recv_loop_round :
      (fuel : ℕ) (size : ℕ → ℕ) (client n : ℕ) (got bytes : Text) (w w' : World)
      → recv client (size (suc n)) w ≡ (received bytes, w')
      → 0 < length bytes
      → recv_loop a (suc fuel) size client (suc n) got w
        ≡ recv_loop a fuel size client (suc n - length bytes) (got ++ bytes) w'
  unfolding recv_loop
  recv_loop_round fuel size client n got [] w w' e h = absurd (omega arith)
  recv_loop_round fuel size client n got (b ∷ bytes) w w' e h = rw e

  module _ (stream : IsStream a) (client : ℕ) (reliable : IsReliable a stream client) where
    open stream use {inbox, recv-inbox}
    open reliable use {recv_some}

    -- The loop gathers the bytes at the front of the stream, as many as it is told.
    pub recv_loop_gets :
        (fuel : ℕ) (size : ℕ → ℕ) (n : ℕ) (got front rest : Text) (w : World)
        → IsSize size
        → n ≤ fuel
        → length front ≡ n
        → inbox client w ≡ front ++ rest
        → (w' : World) × (recv_loop a fuel size client n got w ≡ (done (got ++ front), w'))
          × (inbox client w' ≡ rest)
    recv_loop_gets fuel size zero got [] rest w hs hf hl hi =
        (w, rw (append-nil got) (unfold recv_loop in refl), hi)
    recv_loop_gets fuel size zero got (x ∷ front) rest w hs hf hl hi = absurd (omega arith)
    recv_loop_gets zero size (suc n) got front rest w hs hf hl hi = absurd (omega arith)
    recv_loop_gets (suc fuel) size (suc n) got front rest w hs hf hl hi =
        let some_left : 0 < length (inbox client w) =
          rw hi (omega (arith, length-append front rest)) in
        let (asked, fits) = hs (suc n) (omega arith) in
        let (bytes, w', e, some_got) = recv_some (size (suc n)) w asked some_left in
        let (taken, short) = recv-inbox client (size (suc n)) w w' bytes e in
        let (p, q) =
          split_front front rest bytes (inbox client w') (sym hi ∙ taken) (omega arith) in
        let (w'', e', i) =
          recv_loop_gets fuel size (suc n - length bytes) (got ++ bytes) (drop (length bytes) front)
            rest w' hs (omega arith) (omega (arith, length-drop (length bytes) front)) q in
        (
          w'',
          recv_loop_round fuel size client n got bytes w w' e some_got
              ∙ e'
              ∙ ap (λ t. (done t, w''))
                  (append_assoc got bytes (drop (length bytes) front) ∙ ap (◌++◌ got) (sym p)),
          i,
        )
