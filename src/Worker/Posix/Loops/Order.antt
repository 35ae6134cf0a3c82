-- ===== src/Worker/Posix/Loops/Order.antt =====
-- The write loop of src/sertop/worker.cpp as a whole, and what it writes to sertop.
use waterproof_wrapper.Base.{
  ℕ, zero, suc, ◌≤◌, ◌<◌, ◌≡◌, refl, sym, ap, ◌∙◌, arith, Bool, true, List, [], ◌∷◌, ◌++◌,
  append-nil, append_assoc, Text, length, take, drop, take-append-drop, length-drop, replicate, All,
  if◌then◌else◌,
}
use waterproof_wrapper.Platform.{Api, Sent, sent}
use waterproof_wrapper.Worker.Posix.{Worker, Effect}
use waterproof_wrapper.Worker.Posix.Loops.{
  Next, wrote, locked, write, after_piece, after_message, send_front, write_round, write_loop,
  after_write_round,
}
use waterproof_wrapper.Worker.Posix.Loops.Stream.{joined}

-- A pipe on which no write fails: as documented, each takes a front part of its bytes, one at least.
pub record IsOpen (a : Api) (fd : ℕ) : Type 0 where
  pub taken : a.World → Text
  pub some_taken :
      (bytes : Text) (w : a.World)
      → 0 < length bytes
      → (n : ℕ) × (v : a.World) × (a.write fd bytes w ≡ (sent n, v))
        × (0 < n)
        × (taken v ≡ taken w ++ take n bytes)

module _ (a : Api) (fd : ℕ) (p : IsOpen a fd) where
  write_taken :
      (fuel : ℕ) (bytes : Text) (w : a.World)
      → length bytes ≤ fuel
      → (v : a.World) × (write a fuel fd bytes w ≡ (wrote, v)) × (p.taken v ≡ p.taken w ++ bytes)
  unfolding write after_piece
  write_taken fuel [] w h = (w, refl, sym (append-nil (p.taken w)))
  write_taken zero (b ∷ bytes) w h = absurd (omega arith)
  write_taken (suc fuel) (b ∷ bytes) w h =
      let (n, v, e, some, t) = p.some_taken (b ∷ bytes) w (omega arith) in
      let (u, done, all) =
        write_taken fuel (drop n (b ∷ bytes)) v (omega (arith, length-drop n (b ∷ bytes))) in
      (
        u,
        ap (λ (o : Sent × a.World). after_piece a (b ∷ bytes) (write a fuel fd) o.0 o.1) e ∙ done,
        all
            ∙ ap (λ s. s ++ drop n (b ∷ bytes)) t
            ∙ append_assoc (p.taken w) (take n (b ∷ bytes)) (drop n (b ∷ bytes))
            ∙ ap (◌++◌ (p.taken w)) (take-append-drop n (b ∷ bytes)),
      )

  -- A worker with these messages in its queue.
  abbrev pub queued : Worker → List Text → Worker
  queued k messages = record k { message_queue = messages }

  round_sends :
      (fuel : ℕ) (k : Worker) (message : Text) (messages : List Text) (w v : a.World)
      → k.running ≡ true
      → k.stdin_fd.write_end ≡ fd
      → write a fuel fd message w ≡ (wrote, v)
      → write_round a fuel locked (queued k (message ∷ messages)) w
        ≡ ((Next.again, queued k messages, []), v)
  unfolding write_round send_front after_message
  round_sends fuel k message messages w v running to_fd e =
      let sends = λ (f : ℕ). after_message a (queued k messages) (write a fuel f message w) in
      ap
        (λ (b : Bool).
          if b
          then sends k.stdin_fd.write_end
          else ((Next.leave, queued k (message ∷ messages), []), w))
        running
      ∙ ap sends to_fd
      ∙ ap (after_message a (queued k messages)) e

  -- The write loop of a running worker whose pipe to sertop takes what is written, with a round for each
  -- queued message and as many writes for a message as it has bytes: the messages are written whole
  -- and in the order of the queue, which is empty then; no failure is reported, and the loop waits.
  pub write_loop-joined :
      (fuel : ℕ) (k : Worker) (messages : List Text) (w : a.World)
      → k.running ≡ true
      → k.stdin_fd.write_end ≡ fd
      → All (λ m. length m ≤ fuel) messages
      → (v : a.World) × (write_loop a fuel
            (replicate (length messages) locked)
            (queued k messages)
            w
          ≡ ((Next.waits, queued k [], []), v))
        × (p.taken v ≡ p.taken w ++ joined messages)
  unfolding write_loop after_write_round
  write_loop-joined fuel k [] w running to_fd h = (w, refl, sym (append-nil (p.taken w)))
  write_loop-joined fuel k (m ∷ ms) w running to_fd h =
      let (v, e, t) = write_taken fuel m w h.0 in
      let (u, e', t') = write_loop-joined fuel k ms v running to_fd h.1 in
      (
        u,
        ap (after_write_round a (write_loop a fuel (replicate (length ms) locked)))
              (round_sends fuel k m ms w v running to_fd e)
            ∙ ap
                (λ (o : (Next × Worker × List Effect) × a.World).
                  ((o.0.0, o.0.1, [] ++ o.0.2), o.1))
                e',
        t' ∙ ap (λ s. s ++ joined ms) t ∙ append_assoc (p.taken w) m (joined ms),
      )
