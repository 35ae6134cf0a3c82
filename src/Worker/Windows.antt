-- ===== src/Worker/Windows.antt =====
-- The worker of the Windows build: src/sertop/worker_win.cpp. As in Worker/Posix, an operation gives the
-- new members and its effects in order. Logging is left out.
pub mod Handles
pub mod Loops
use waterproof_wrapper.Base.{ℕ, ℤ, Bool, true, false, List, [], ◌∷◌, ◌++◌, Text, codes}
use waterproof_wrapper.Utils.Exceptions.{ApiError}
use waterproof_wrapper.Platform.{Sent}
use waterproof_wrapper.Platform.Setup.{
  Resource, handle, Act, acquired, Result, ok, threw, Called, Opened, Setup, ◌>>=◌, ◌>>◌, pure,
  releases, release, open_or, failing,
}

-- What `CreateProcessA` gives: the handles of the process and of its thread.
pub data Created : Type 0 where
  created : ℕ → ℕ → Created
  not_created : ℤ → Created

-- The calls of the platform. `create_file` opens the other end of the pipe of this name, which the child
-- may inherit. `format_name` is fmt::format(R"(\\.\Pipe\WaterproofWrapper.{}.{})", …).
-- `write_file` starts a write of these bytes, and `write_result` waits for its end and gives the number
-- of the bytes that were taken.
pub record WorkerApi : Type 1 where
  pub World : Type 0
  pub process_id : ℕ
  pub io_pending : ℤ
  pub format_name : ℕ → ℕ → Text
  pub format_code : Text → ℤ → Text
  pub create_named_pipe : Text → World → Opened × World
  pub create_file : Text → World → Opened × World
  pub create_process : Text → ℕ → World → Created × World
  pub create_event : World → Opened × World
  pub write_file : ℕ → Text → World → Called × World
  pub write_result : ℕ → World → Sent × World

pub record Worker : Type 0 where
  pub id : ℕ
  pub running : Bool
  pub message_queue : List Text
  pub pipe_worker_end : ℕ
  pub pipe_sertop_end : ℕ
  pub sertop_instance : ℕ
  pub interrupt_event : ℕ
  pub read_event : ℕ
  pub write_event : ℕ

-- `notify` wakes the thread that writes; `set_event` and `cancel_io` end what the one that reads waits for.
pub data Effect : Type 0 where
  notify : Effect
  set_event : ℕ → Effect
  cancel_io : ℕ → Effect
  close : ℕ → Effect
  terminated : ℕ → Effect
  failed : ℕ → ApiError → Effect
  responded : ℕ → Text → Effect

unfoldable pub spaced : List Text → Text
spaced [] = []
spaced (arg ∷ args) = 32 ∷ (arg ++ spaced args)

-- The command line of sertop: its arguments with a space before each, as they are.
unfoldable pub command_line : Text → List Text → Text
unfolding spaced
command_line sertop_path sertop_args = sertop_path ++ (spaced sertop_args ++ codes " --print0")

module _ (a : WorkerApi) where
  open a use {World, create_named_pipe, create_file, create_process, create_event, format_code}

  -- The worker's end and sertop's end of the pipe.
  unfoldable pub open_pipe : Text → Setup World (ℕ × ℕ)
  open_pipe name = do
    w ←
        open_or format_code handle (create_named_pipe name)
          (codes "failed to create worker end of pipe") []
    s ←
        open_or format_code handle (create_file name) (codes "failed to create sertop end of pipe")
          (handle w ∷ [])
    pure (w, s)

  -- `close_all` skips null handles, which none of these is.
  unfoldable pub after_create : ℕ → ℕ → Created × World → (Result (ℕ × ℕ) × List Act) × World
  unfolding releases
  after_create w s (created p t, v) =
      ((ok (p, t), acquired (handle p) ∷ acquired (handle t) ∷ []), v)
  after_create w s (not_created e, v) =
      failing format_code (codes "unable to create sertop process") (handle s ∷ handle w ∷ []) e v

  unfoldable pub open_process : Text → ℕ → ℕ → Setup World (ℕ × ℕ)
  unfolding after_create
  open_process command w s v = after_create w s (create_process command s v)

  -- The events of a worker whose process has this handle, and its thread that one.
  unfoldable pub open_events : ℕ → ℕ → ℕ → ℕ → Setup World (ℕ × ℕ × ℕ)
  open_events w s p t = do
    release (handle t ∷ [])
    i ←
        open_or format_code handle create_event (codes "unable to create interrupt event")
          (handle s ∷ handle w ∷ handle t ∷ handle p ∷ [])
    r ←
        open_or format_code handle create_event (codes "unable to create read event")
          (handle s ∷ handle w ∷ handle t ∷ handle p ∷ handle i ∷ [])
    o ←
        open_or format_code handle create_event (codes "unable to create write event")
          (handle s ∷ handle w ∷ handle t ∷ handle p ∷ handle i ∷ handle r ∷ [])
    pure (i, r, o)

  -- The pipe and the process.
  unfoldable pub open_sertop : ℕ → Text → List Text → Setup World (ℕ × ℕ × ℕ × ℕ)
  open_sertop id sertop_path sertop_args = do
    (w, s) ← open_pipe (a.format_name a.process_id id)
    (p, t) ← open_process (command_line sertop_path sertop_args) w s
    pure (w, s, p, t)

  unfoldable pub equip : ℕ → ℕ × ℕ × ℕ × ℕ → Setup World Worker
  equip id (w, s, p, t) = do
    (i, r, o) ← open_events w s p t
    pure (record {
      id = id;
      running = true;
      message_queue = [];
      pipe_worker_end = w;
      pipe_sertop_end = s;
      sertop_instance = p;
      interrupt_event = i;
      read_event = r;
      write_event = o;
    })

  -- The constructor.
  unfoldable pub start : ℕ → Text → List Text → Setup World Worker
  start id sertop_path sertop_args = do made ← open_sertop id sertop_path sertop_args; equip id made

-- What the wait of 500 ms for the end of sertop gives.
pub data Waited : Type 0 where
  ended timed_out wait_failed : Waited

unfoldable pub interrupt : Bool → Worker → List Effect
interrupt true k = notify ∷ set_event k.interrupt_event ∷ cancel_io k.pipe_worker_end ∷ []
interrupt false k = []

unfoldable pub end_sertop : Waited → ℕ → List Effect
end_sertop ended p = []
end_sertop timed_out p = terminated p ∷ []
end_sertop wait_failed p = terminated p ∷ []

-- The destructor; the joins of the threads are left out.
unfoldable pub destroy : Waited → Worker → List Effect
unfolding interrupt end_sertop
destroy waited k =
    interrupt k.running k
    ++ (close k.pipe_sertop_end
        ∷ close k.pipe_worker_end
        ∷ (end_sertop waited k.sertop_instance ++ (close k.sertop_instance ∷ [])))

-- `fail`.
unfoldable pub fail : ApiError → Worker → Worker × List Effect
unfolding interrupt
fail error k = (record k { running = false }, interrupt true k ++ (failed k.id error ∷ []))
