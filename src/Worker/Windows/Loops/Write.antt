-- ===== src/Worker/Windows/Loops/Write.antt =====
-- `write` of the Windows worker: what reaches the pipe.
use waterproof_wrapper.Base.{
  ℕ, zero, suc, ◌≤◌, ◌<◌, ◌≡◌, refl, sym, ap, ◌∙◌, arith, [], ◌∷◌, ◌++◌, append-nil, append_assoc,
  Text, length, take, drop, take-append-drop, length-drop, int_eq_refl, ◌⊎◌, inl, inr,
}
use waterproof_wrapper.Platform.{sent}
use waterproof_wrapper.Platform.Setup.{Called, call_ok, call_failed}
use waterproof_wrapper.Worker.Posix.Loops.{Written, wrote}
use waterproof_wrapper.Worker.Windows.{WorkerApi}
use waterproof_wrapper.Worker.Windows.Loops.{write, after_start, after_write}

-- A pipe whose calls do not fail, as documented: a write is over at once or pending, and its end says
-- how many bytes were taken off the front, one at least.
pub record IsPipe (a : WorkerApi) (end : ℕ) : Type 0 where
  pub taken : a.World → Text
  pub begun :
      (bytes : Text) (w : a.World)
      → ((a.write_file end bytes w).0 ≡ call_ok)
        ⊎ ((a.write_file end bytes w).0 ≡ call_failed a.io_pending)
  pub ended :
      (bytes : Text) (w : a.World)
      → 0 < length bytes
      → (n : ℕ) × (v : a.World) × (a.write_result end (a.write_file end bytes w).1 ≡ (sent n, v))
        × (0 < n)
        × (taken v ≡ taken w ++ take n bytes)

module _ (a : WorkerApi) (end : ℕ) (p : IsPipe a end) where
  after_start-begun :
      (finish : a.World → Written × a.World) (c : Called) (w : a.World)
      → (c ≡ call_ok) ⊎ (c ≡ call_failed a.io_pending)
      → after_start a finish (c, w) ≡ finish w
  unfolding after_start
  after_start-begun finish c w (inl e) = rw e refl
  after_start-begun finish c w (inr e) = rw (e, int_eq_refl a.io_pending) refl

  piece :
      (rest : Text → a.World → Written × a.World) (bytes : Text) (w v : a.World) (n : ℕ)
      → a.write_result end (a.write_file end bytes w).1 ≡ (sent n, v)
      → after_start a
          (λ u. after_write a bytes rest (a.write_result end u))
          (a.write_file end bytes w)
        ≡ rest (drop n bytes) v
  unfolding after_write
  piece rest bytes w v n e =
      let o = a.write_file end bytes w in
      after_start-begun (λ u. after_write a bytes rest (a.write_result end u)) o.0 o.1
        (p.begun bytes w)
      ∙ ap (after_write a bytes rest) e

  -- `write` on a pipe whose calls do not fail, with at least as many rounds as bytes: it returns, and
  -- the pipe has taken the bytes, each once and in order, behind what it took before; however few are
  -- taken at a time.
  pub write-wrote :
      (fuel : ℕ) (bytes : Text) (w : a.World)
      → length bytes ≤ fuel
      → (v : a.World) × (write a fuel end bytes w ≡ (wrote, v)) × (p.taken v ≡ p.taken w ++ bytes)
  unfolding write
  write-wrote fuel [] w h = (w, refl, sym (append-nil (p.taken w)))
  write-wrote zero (b ∷ bytes) w h = absurd (omega arith)
  write-wrote (suc fuel) (b ∷ bytes) w h =
      let (n, v, e, some, t) = p.ended (b ∷ bytes) w (omega arith) in
      let (u, done, all) =
        write-wrote fuel (drop n (b ∷ bytes)) v (omega (arith, length-drop n (b ∷ bytes))) in
      (
        u,
        piece (write a fuel end) (b ∷ bytes) w v n e ∙ done,
        all
            ∙ ap (λ s. s ++ drop n (b ∷ bytes)) t
            ∙ append_assoc (p.taken w) (take n (b ∷ bytes)) (drop n (b ∷ bytes))
            ∙ ap (◌++◌ (p.taken w)) (take-append-drop n (b ∷ bytes)),
      )
