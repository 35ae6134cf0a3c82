-- ===== src/Worker/Windows/Loops/Failures.antt =====
-- How the read loop of the Windows worker reports failures.
use waterproof_wrapper.Base.{
  ℕ, ◌+◌, ◌≤◌, ℤ, ◌≡◌, ◌≢◌, refl, sym, ap, ◌∙◌, subst, arith, Bool, true, false, List, [], ◌∷◌,
  ◌++◌, Text, map, if◌then◌else◌, int_eq, ◌⊎◌, inl, inr, length, append-nil,
}
use waterproof_wrapper.Platform.{received, recv_failed}
use waterproof_wrapper.Platform.Setup.{Called, call_ok, call_failed}
use waterproof_wrapper.Worker.Parse.{parse}
use waterproof_wrapper.Worker.Posix.Loops.{Next, filled}
use waterproof_wrapper.Worker.Windows.{Worker, Effect, failed, responded, fail}
use waterproof_wrapper.Worker.Windows.Loops.{
  Signal, wait_failed, interrupted, read_ended, other, ReadEvent, Round, unless_pending, begin_read,
  after_reset, take_output, on_signal, after_begin, read_round, after_round, read_loop,
}

-- How often the callbacks of a failure are executed.
unfoldable pub failures : List Effect → ℕ
failures [] = 0
failures (failed n e ∷ es) = 1 + failures es
failures (_ ∷ es) = failures es

failures-append : (es fs : List Effect) → failures (es ++ fs) ≡ failures es + failures fs
unfolding failures
failures-append [] fs = omega arith
failures-append (Effect.notify ∷ es) fs = failures-append es fs
failures-append (Effect.set_event n ∷ es) fs = failures-append es fs
failures-append (Effect.cancel_io n ∷ es) fs = failures-append es fs
failures-append (Effect.close n ∷ es) fs = failures-append es fs
failures-append (Effect.terminated n ∷ es) fs = failures-append es fs
failures-append (Effect.failed n e ∷ es) fs = omega (arith, failures-append es fs)
failures-append (Effect.responded n t ∷ es) fs = failures-append es fs

failures-responded : (n : ℕ) (ms : List Text) → failures (map (responded n) ms) ≡ 0
unfolding failures
failures-responded n [] = refl
failures-responded n (m ∷ ms) = failures-responded n ms

abbrev pub stopped : Worker → Worker
stopped k = record k { running = false }

-- What a loop comes to: the worker is as it was and has reported nothing; or it has been stopped, the
-- loop is left, and a failure was reported once or twice.
abbrev pub Reported : Worker → Round → Type 0
Reported k (next, remainder, k', effects) =
    ((k' ≡ k) × (failures effects ≡ 0))
    ⊎ ((next ≡ Next.leave) × (k' ≡ stopped k) × (1 ≤ failures effects) × (failures effects ≤ 2))

-- What a round comes to from a worker, and after the start of its read.
abbrev Ends : Worker → Round → Type 0
Ends k (next, remainder, k', effects) =
    ((k' ≡ k) × (failures effects ≡ 0))
    ⊎ ((next ≢ Next.waits) × (k' ≡ stopped k) × (1 ≤ failures effects) × (failures effects ≤ 2))

abbrev Signalled : Worker → Round → Type 0
Signalled k (next, remainder, k', effects) =
    (next ≢ Next.waits)
    × (((k' ≡ k) × (failures effects ≡ 0)) ⊎ ((k' ≡ stopped k) × (failures effects ≡ 1)))

abbrev Begun : Worker → Worker × List Effect → Type 0
Begun k (k', effects) =
    ((k' ≡ k) × (failures effects ≡ 0)) ⊎ ((k' ≡ stopped k) × (failures effects ≡ 1))

module _ (format_code : Text → ℤ → Text) (io_pending : ℤ) where
  reset-Signalled :
      (reset : Called) (remainder : Text) (k : Worker) (messages : List Text)
      → Signalled k
          (after_reset format_code io_pending reset remainder k (map (responded k.id) messages))
  unfolding after_reset fail
  reset-Signalled call_ok remainder k messages = (cc, inl (refl, failures-responded k.id messages))
  reset-Signalled (call_failed e) remainder k messages = (
    cc,
    inr (
      refl,
      unfold failures in
          omega (
            arith,
            failures-append (map (responded k.id) messages) _,
            failures-responded k.id messages,
          ),
    ),
  )

  signal-Signalled :
      (signal : Signal) (remainder : Text) (k : Worker)
      → Signalled k (on_signal format_code io_pending signal remainder k)
  unfolding on_signal take_output fail failures
  signal-Signalled (wait_failed e) remainder k = (cc, inr (refl, refl))
  signal-Signalled interrupted remainder k = (cc, inl (refl, refl))
  signal-Signalled (read_ended (recv_failed e) reset) remainder k = (cc, inr (refl, refl))
  signal-Signalled (read_ended (received bytes) reset) remainder k =
      let r = parse (filled bytes) (length bytes) remainder in reset-Signalled reset r.1 k r.0
  signal-Signalled other remainder k = (cc, inl (refl, refl))

  pending-Begun :
      (b : Bool) (e : ℤ) (k : Worker) → Begun k (unless_pending format_code io_pending b e k)
  unfolding unless_pending failures fail
  pending-Begun true e k = inl (refl, refl)
  pending-Begun false e k = inr (refl, refl)

  begin-Begun : (begun : Called) (k : Worker) → Begun k (begin_read format_code io_pending begun k)
  unfolding begin_read failures
  begin-Begun call_ok k = inl (refl, refl)
  begin-Begun (call_failed e) k = pending-Begun (int_eq e io_pending) e k

  after_begin-Ends :
      (signal : Signal) (remainder : Text) (k : Worker) (o : Worker × List Effect)
      → Begun k o
      → Ends k (after_begin format_code io_pending signal remainder o)
  unfolding after_begin
  after_begin-Ends signal remainder k (k', es) b =
      joined (on_signal format_code io_pending signal remainder k') b
        (signal-Signalled signal remainder k')
    where
      joined : (o : Round) → Begun k (k', es) → Signalled k' o → Ends k (o.0, o.1, o.2, es ++ o.3)
      joined (next, rest, k'', fs) (inl (e, f)) (n, inl (e', f')) =
          inl (e' ∙ e, omega (arith, f, f', failures-append es fs))
      joined (next, rest, k'', fs) (inl (e, f)) (n, inr (e', f')) = inr (
        n,
        e' ∙ ap stopped e,
        omega (arith, f, f', failures-append es fs),
        omega (arith, f, f', failures-append es fs),
      )
      joined (next, rest, k'', fs) (inr (e, f)) (n, inl (e', f')) = inr (
        n,
        e' ∙ e,
        omega (arith, f, f', failures-append es fs),
        omega (arith, f, f', failures-append es fs),
      )
      joined (next, rest, k'', fs) (inr (e, f)) (n, inr (e', f')) = inr (
        n,
        e' ∙ ap stopped e,
        omega (arith, f, f', failures-append es fs),
        omega (arith, f, f', failures-append es fs),
      )

  round-Ends :
      (event : ReadEvent) (remainder : Text) (k : Worker)
      → Ends k (read_round format_code io_pending event remainder k)
  unfolding read_round failures
  round-Ends event remainder k = by_running k.running
    where
      by_running :
          (b : Bool)
          → Ends k (
              if b
              then after_begin format_code io_pending event.signal remainder
                  (begin_read format_code io_pending event.begun k)
              else (Next.leave, remainder, k, []))
      by_running true =
          after_begin-Ends event.signal remainder k
            (begin_read format_code io_pending event.begun k) (begin-Begun event.begun k)
      by_running false = inl (refl, refl)

  read_loop-stopped :
      (events : List ReadEvent) (remainder : Text) (k : Worker)
      → read_loop format_code io_pending events remainder (stopped k)
        ≡ (Next.leave, remainder, stopped k, [])
  unfolding read_loop read_round
  read_loop-stopped [] remainder k = refl
  read_loop-stopped (event ∷ events) remainder k = refl

  quiet_before :
      (k : Worker) (es : List Effect) (o : Round)
      → failures es ≡ 0
      → Reported k o
      → Reported k (o.0, o.1, o.2, es ++ o.3)
  quiet_before k es (next, rest, k', fs) h (inl (e, f)) =
      inl (e, omega (arith, h, f, failures-append es fs))
  quiet_before k es (next, rest, k', fs) h (inr (l, e, f, g)) =
      inr (
        l,
        e,
        omega (arith, h, f, failures-append es fs),
        omega (arith, h, g, failures-append es fs),
      )

  after_round-Reported :
      (k : Worker) (rest : Text → Worker → Round) (o : Round)
      → Ends k o
      → ((remainder : Text) → Reported k (rest remainder k))
      → ((remainder : Text) → rest remainder (stopped k) ≡ (Next.leave, remainder, stopped k, []))
      → Reported k (after_round rest o)
  unfolding after_round
  after_round-Reported k rest (Next.again, remainder, k', es) (inl (e, f)) h s =
      subst (λ v. Reported k (after_round rest (Next.again, remainder, v, es))) (sym e)
        (quiet_before k es (rest remainder k) f (h remainder))
  after_round-Reported k rest (Next.again, remainder, k', es) (inr (n, e, f, g)) h s =
      subst (λ v. Reported k (after_round rest (Next.again, remainder, v, es))) (sym e)
        (subst (λ (o : Round). Reported k (o.0, o.1, o.2, es ++ o.3)) (sym (s remainder))
          (inr (refl, refl, rw (append-nil es) f, rw (append-nil es) g)))
  after_round-Reported k rest (Next.leave, remainder, k', es) (inl c) h s = inl c
  after_round-Reported k rest (Next.leave, remainder, k', es) (inr (n, e, f, g)) h s =
      inr (refl, e, f, g)
  after_round-Reported k rest (Next.waits, remainder, k', es) (inl c) h s = inl c
  after_round-Reported k rest (Next.waits, remainder, k', es) (inr (n, e, f, g)) h s =
      absurd (n refl)

  -- The read loop of the Windows worker, whatever the platform gives in its rounds: either the worker is
  -- as it was and no failure has been reported; or the worker has been stopped, the loop is left, and
  -- the callbacks of a failure have been executed once or twice.
  pub overlapped_loop-Reported :
      (events : List ReadEvent) (remainder : Text) (k : Worker)
      → Reported k (read_loop format_code io_pending events remainder k)
  unfolding read_loop
  overlapped_loop-Reported [] remainder k = unfold failures in inl (refl, refl)
  overlapped_loop-Reported (event ∷ events) remainder k =
      after_round-Reported k (read_loop format_code io_pending events) _
        (round-Ends event remainder k) (λ rest. overlapped_loop-Reported events rest k)
        (λ rest. read_loop-stopped events rest k)
