-- ===== src/Worker/Posix/Resources.antt =====
-- The file descriptors of a worker over its life: which are opened, and which are closed.
use mathlib.Core.List.{Perm, perm_middle, perm_append_comm}
use mathlib.Core.List.Perm
use waterproof_wrapper.Base.{ℕ, ◌≡◌, refl, Bool, true, false, List, [], ◌∷◌, ◌++◌, ◌⊎◌, inl, inr}
use waterproof_wrapper.Utils.Exceptions.{ApiError}
use waterproof_wrapper.Platform.{
  Api, Piped, piped, pipe_failed, Forked, in_child, in_parent, fork_failed,
}
use waterproof_wrapper.Worker.Posix.{
  Ends, Worker, Effect, opened, close, Started, started, start_threw, child, start, start_interrupt,
  start_stdin, start_stdout, start_forked, fail, destroy,
}

-- The descriptors that are opened, in order, and those that are closed.
unfoldable pub opens : List Effect → List ℕ
opens [] = []
opens (opened e ∷ es) = e.read_end ∷ e.write_end ∷ opens es
opens (_ ∷ es) = opens es

unfoldable pub closes : List Effect → List ℕ
closes [] = []
closes (close fd ∷ es) = fd ∷ closes es
closes (_ ∷ es) = closes es

abbrev pub both_ends : Ends → List ℕ
both_ends e = e.read_end ∷ e.write_end ∷ []

-- A worker that has started has its three pipes open, but for the ends that are sertop's. A
-- constructor that throws has opened nothing, or it leaves open the two ends of the interrupt pipe and
-- has closed all else.
abbrev pub Accounted : Started × List Effect → Type 0
Accounted (started k, es) =
    (opens es ≡ both_ends k.interrupt_fd ++ (both_ends k.stdin_fd ++ both_ends k.stdout_fd))
    × (closes es ≡ k.stdin_fd.read_end ∷ k.stdout_fd.write_end ∷ [])
    × (k.running ≡ true)
Accounted (start_threw e, es) =
    ((opens es ≡ []) × (closes es ≡ []))
    ⊎ ((interrupt_fd : Ends) × (opens es ≡ both_ends interrupt_fd ++ closes es))
Accounted (child, es) = closes es ≡ []

module _ (a : Api) (id : ℕ) where
  forked-Accounted :
      (i s o : Ends) (f : Forked) (w : a.World)
      → let r = (start_forked a id i s o f w).0 in
        Accounted (r.0, opened i ∷ opened s ∷ opened o ∷ r.1)
  unfolding start_forked opens closes
  forked-Accounted i s o (fork_failed e) w = inr (i, refl)
  forked-Accounted i s o in_child w = refl
  forked-Accounted i s o (in_parent pid) w = (refl, refl, refl)

  stdout-Accounted :
      (i s : Ends) (p : Piped) (w : a.World)
      → let r = (start_stdout a id i s p w).0 in Accounted (r.0, opened i ∷ opened s ∷ r.1)
  unfolding start_stdout
  stdout-Accounted i s (pipe_failed e) w = unfold opens closes in inr (i, refl)
  stdout-Accounted i s (piped r t) w =
      forked-Accounted i s (record { read_end = r; write_end = t }) (a.fork w).0 (a.fork w).1

  stdin-Accounted :
      (i : Ends) (p : Piped) (w : a.World)
      → let r = (start_stdin a id i p w).0 in Accounted (r.0, opened i ∷ r.1)
  unfolding start_stdin
  stdin-Accounted i (pipe_failed e) w = unfold opens closes in inr (i, refl)
  stdin-Accounted i (piped r t) w =
      stdout-Accounted i (record { read_end = r; write_end = t }) (a.pipe w).0 (a.pipe w).1

  interrupt-Accounted : (p : Piped) (w : a.World) → Accounted (start_interrupt a id p w).0
  unfolding start_interrupt
  interrupt-Accounted (pipe_failed e) w = unfold opens closes in inl (refl, refl)
  interrupt-Accounted (piped r t) w =
      stdin-Accounted (record { read_end = r; write_end = t }) (a.pipe w).0 (a.pipe w).1

  -- The constructor, whichever of its calls fail: if it succeeds, the worker runs and its three pipes
  -- are open but for the ends that are sertop's; if it throws, it has opened nothing, or it leaves open
  -- the two ends of the interrupt pipe and has closed everything else that it opened.
  pub start-Accounted : (w : a.World) → Accounted (start a id w).0
  unfolding start
  start-Accounted w = interrupt-Accounted (a.pipe w).0 (a.pipe w).1

destroy_running :
    (k : Worker) (in_time : Bool)
    → k.running ≡ true
    → closes (destroy in_time k)
      ≡ k.stdin_fd.write_end ∷ k.stdout_fd.read_end ∷ both_ends k.interrupt_fd
unfolding destroy closes
destroy_running k true h = rw h
destroy_running k false h = rw h

-- Over the life of a worker that started and did not fail, every descriptor that was opened is closed
-- once, whether or not sertop ends in time.
pub life_closes :
    (k : Worker) (es : List Effect) (in_time : Bool)
    → Accounted (started k, es)
    → Perm (opens es) (closes es ++ closes (destroy in_time k))
life_closes k es in_time h =
    rw (h.0, h.1, destroy_running k in_time h.2)
      (Perm.trans
        (perm_append_comm (both_ends k.interrupt_fd)
          (both_ends k.stdin_fd ++ both_ends k.stdout_fd))
        (Perm.cons k.stdin_fd.read_end (
          Perm.append_right (both_ends k.interrupt_fd)
            (perm_middle (k.stdin_fd.write_end ∷ k.stdout_fd.read_end ∷ []) []))))

-- After a failure the destructor closes the write end of the interrupt pipe again.
pub fail-closes_twice :
    (k : Worker) (error : ApiError) (in_time : Bool)
    → closes ((fail error k).1 ++ destroy in_time (fail error k).0)
      ≡ k.interrupt_fd.write_end ∷ k.stdin_fd.write_end ∷ k.stdout_fd.read_end
        ∷ k.interrupt_fd.read_end ∷ k.interrupt_fd.write_end ∷ []
unfolding fail destroy closes
fail-closes_twice k error true = refl
fail-closes_twice k error false = refl
