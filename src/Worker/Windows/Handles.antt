-- ===== src/Worker/Windows/Handles.antt =====
-- The handles of the Windows worker, over its construction and its destruction.
use waterproof_wrapper.Base.{ℕ, ◌+◌, ◌≡◌, refl, arith, Bool, true, false, List, [], ◌∷◌, ◌++◌, Text}
use waterproof_wrapper.Utils.Exceptions.{ApiError}
use waterproof_wrapper.Platform.Setup.{
  Resource, handle, Act, Result, ok, threw, undefined, then_do, ◌>>=◌,
}
use waterproof_wrapper.Platform.Setup.Balance.{
  one, total, gained, lost, gained-append, lost-append, Settled, Balanced, thrown, Balanced-bind,
  Balanced-seq, open_or-Balanced, release-Balanced, pure-Balanced,
}
use waterproof_wrapper.Worker.Windows.{
  WorkerApi, Created, created, not_created, Worker, Effect, close, open_pipe, after_create,
  open_process, open_sertop, open_events, equip, start, Waited, ended, timed_out, wait_failed,
  destroy, fail,
}

-- What a worker holds once its process runs: the ends of the pipe and the process.
abbrev pub lasting : Worker → List Resource
lasting k = handle k.pipe_worker_end ∷ handle k.pipe_sertop_end ∷ handle k.sertop_instance ∷ []

abbrev pub events : Worker → List Resource
events k = handle k.interrupt_event ∷ handle k.read_event ∷ handle k.write_event ∷ []

abbrev sertop_handles : ℕ × ℕ × ℕ × ℕ → List Resource
sertop_handles m = handle m.0 ∷ handle m.1 ∷ handle m.2 ∷ handle m.3 ∷ []

module _ (a : WorkerApi) where
  pipe-Balanced :
      (name : Text) → Balanced [] [] (λ m. handle m.0 ∷ handle m.1 ∷ []) (open_pipe a name)
  unfolding open_pipe
  pipe-Balanced name = Balanced-bind (open_or-Balanced _ handle _ _ [] (λ x. refl)) λ w.
      Balanced-bind (open_or-Balanced _ handle _ _ (handle w ∷ []) (λ x. refl))
        λ s. pure-Balanced (λ (m : ℕ × ℕ). handle m.0 ∷ handle m.1 ∷ []) _ (λ x. omega arith)

  process-Balanced :
      (command : Text) (w s : ℕ)
      → Balanced
          (handle w ∷ handle s ∷ [])
          []
          (λ m. handle w ∷ handle s ∷ handle m.0 ∷ handle m.1 ∷ [])
          (open_process a command w s)
  unfolding open_process
  process-Balanced command w s = record { settled = λ v. on_result (a.create_process command s v) }
    where
      on_result :
          (o : Created × a.World)
          → Settled
              (handle w ∷ handle s ∷ [])
              []
              (λ m. handle w ∷ handle s ∷ handle m.0 ∷ handle m.1 ∷ [])
              (after_create a w s o).0
      on_result (created p t, v) = unfold after_create gained lost in λ x. omega arith
      on_result (not_created e, v) =
          unfold after_create in
          thrown (handle w ∷ handle s ∷ []) [] (handle s ∷ handle w ∷ []) (λ x. omega arith)

  sertop-Balanced :
      (id : ℕ) (path : Text) (args : List Text)
      → Balanced [] [] sertop_handles (open_sertop a id path args)
  unfolding open_sertop
  sertop-Balanced id path args = Balanced-bind (pipe-Balanced _) λ m.
      Balanced-bind (process-Balanced _ m.0 m.1) λ p. pure-Balanced sertop_handles _ (λ x. refl)

  events-Balanced :
      (w s p t : ℕ)
      → Balanced
          (sertop_handles (w, s, p, t))
          (handle t ∷ [])
          (λ e. handle e.2 ∷ handle e.1 ∷ handle e.0 ∷ handle w ∷ handle s ∷ handle p ∷ [])
          (open_events a w s p t)
  unfolding open_events
  events-Balanced w s p t =
      let all = handle s ∷ handle w ∷ handle t ∷ handle p ∷ [] in
      let left = handle w ∷ handle s ∷ handle p ∷ [] in
      Balanced-seq (release-Balanced {qs = left} (handle t ∷ []) (λ x. omega arith)) (
        Balanced-bind (open_or-Balanced _ handle _ _ all (λ x. omega arith)) λ i.
          Balanced-bind (open_or-Balanced _ handle _ _ (all ++ (handle i ∷ [])) (λ x. omega arith))
            λ r.
              Balanced-bind
                (open_or-Balanced _ handle _ _ (all ++ (handle i ∷ handle r ∷ []))
                  (λ x. omega arith))
                λ o.
                  pure-Balanced
                    (λ (e : ℕ × ℕ × ℕ).
                      handle e.2 ∷ handle e.1 ∷ handle e.0 ∷ handle w ∷ handle s ∷ handle p ∷ [])
                    _ (λ x. refl))

  equip-Balanced :
      (id w s p t : ℕ)
      → Balanced
          (sertop_handles (w, s, p, t))
          (handle t ∷ [])
          (λ k. events k ++ lasting k)
          (equip a id (w, s, p, t))
  unfolding equip
  equip-Balanced id w s p t =
      Balanced-bind (events-Balanced w s p t)
        λ e. pure-Balanced (λ (k : Worker). events k ++ lasting k) _ (λ x. omega arith)

-- A worker that was started with these calls holds the two ends of its pipe, its process and its three
-- events, and nothing else.
abbrev pub Holds : Worker → List Act → Type 0
Holds k es = (x : Resource) → gained x es ≡ lost x es + total x (events k ++ lasting k)

-- What a construction comes to, after this result of the steps that open the pipe and the process. A
-- construction that throws has released all it acquired, each as often as it was acquired, but for the
-- handle of sertop's thread, if the process was created: that one is released once more.
abbrev pub HandlesAccounted : Result (ℕ × ℕ × ℕ × ℕ) → Result Worker × List Act → Type 0
HandlesAccounted (ok m) (ok k, es) = Holds k es
HandlesAccounted (ok m) (threw e, es) =
    (x : Resource) → gained x es + one (handle m.3) x ≡ lost x es
HandlesAccounted (ok m) (undefined, es) = Unit {0}
HandlesAccounted (threw d) (ok k, es) = ⊥
HandlesAccounted (threw d) (threw e, es) = (x : Resource) → gained x es ≡ lost x es
HandlesAccounted (threw d) (undefined, es) = ⊥
HandlesAccounted undefined o = Unit {0}

joined :
    {W : Type 0} (id : ℕ) (m : ℕ × ℕ × ℕ × ℕ) (es : List Act) (o : (Result Worker × List Act) × W)
    → Settled [] [] sertop_handles (ok m, es)
    → Settled (sertop_handles m) (handle m.3 ∷ []) (λ k. events k ++ lasting k) o.0
    → HandlesAccounted (ok m) (o.0.0, es ++ o.0.1)
joined id m es ((ok k, fs), w) h g =
    λ x. omega (arith, h x, g x, gained-append x es fs, lost-append x es fs)
joined id m es ((threw e, fs), w) h g =
    λ x. omega (arith, h x, g x, gained-append x es fs, lost-append x es fs)
joined id m es ((undefined, fs), w) h g = tt

after_sertop :
    (a : WorkerApi) (id : ℕ) (o : (Result (ℕ × ℕ × ℕ × ℕ) × List Act) × a.World)
    → Settled [] [] sertop_handles o.0
    → HandlesAccounted o.0.0 (then_do o (equip a id)).0
unfolding then_do
after_sertop a id ((ok m, es), v) h =
    joined id m es (equip a id m v) h ((equip-Balanced a id m.0 m.1 m.2 m.3).settled v)
after_sertop a id ((threw e, es), v) h = λ x. omega (arith, h x)
after_sertop a id ((undefined, es), v) h = tt

-- The constructor of the Windows worker, whichever of its calls fail: if it succeeds, it holds the two
-- ends of the pipe, the process and three events, and has released all else. If it throws before the
-- process is created, it has released each handle as often as it acquired it. If it throws after that, it
-- has released the handle of sertop's thread once more than it acquired it, and every other handle as
-- often as it acquired it.
pub start-HandlesAccounted :
    (a : WorkerApi) (id : ℕ) (sertop_path : Text) (sertop_args : List Text) (v : a.World)
    → HandlesAccounted
        (open_sertop a id sertop_path sertop_args v).0.0
        (start a id sertop_path sertop_args v).0
unfolding start ◌>>=◌
start-HandlesAccounted a id sertop_path sertop_args v =
    after_sertop a id (open_sertop a id sertop_path sertop_args v)
      ((sertop-Balanced a id sertop_path sertop_args).settled v)

-- The handles that effects close.
unfoldable pub closed_handles : List Effect → List Resource
closed_handles [] = []
closed_handles (close n ∷ es) = handle n ∷ closed_handles es
closed_handles (_ ∷ es) = closed_handles es

-- The effects of these failures, in order, and then of the destruction.
unfoldable pub lived : Waited → List ApiError → Worker → List Effect
lived waited [] k = destroy waited k
lived waited (error ∷ errors) k = (fail error k).1 ++ lived waited errors (fail error k).0

closed-destroy :
    (waited : Waited) (k : Worker) (running : Bool)
    → closed_handles (destroy waited (record k { running = running }))
      ≡ handle k.pipe_sertop_end ∷ handle k.pipe_worker_end ∷ handle k.sertop_instance ∷ []
unfolding closed_handles destroy
closed-destroy ended k true = refl
closed-destroy timed_out k true = refl
closed-destroy wait_failed k true = refl
closed-destroy ended k false = refl
closed-destroy timed_out k false = refl
closed-destroy wait_failed k false = refl

closed-lived :
    (waited : Waited) (errors : List ApiError) (k : Worker)
    → closed_handles (lived waited errors k)
      ≡ handle k.pipe_sertop_end ∷ handle k.pipe_worker_end ∷ handle k.sertop_instance ∷ []
unfolding lived fail closed_handles
closed-lived waited [] k = closed-destroy waited k k.running
closed-lived waited (error ∷ errors) k = closed-lived waited errors (record k { running = false })

-- Over the life of a Windows worker that was started, however often it fails, whatever the failures are
-- and however the wait for sertop ends, each handle is released as often as it was acquired, but for the
-- three events, which are released once less.
pub life_leaks_events :
    (k : Worker) (es : List Act) (waited : Waited) (errors : List ApiError)
    → Holds k es
    → (x : Resource)
    → gained x es
      ≡ lost x es + total x (closed_handles (lived waited errors k)) + total x (events k)
life_leaks_events k es waited errors h x = rw (closed-lived waited errors k) (omega (arith, h x))
