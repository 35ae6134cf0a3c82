-- ===== src/Worker/Posix.antt =====
-- The worker of the POSIX build: src/sertop/worker.h, worker.cpp and worker_posix.cpp. An operation runs
-- under the mutex of the members that it touches; what it does outside them is a list of effects, in
-- order. Logging is left out.
pub mod Loops
pub mod Resources
use waterproof_wrapper.Base.{
  ℕ, zero, suc, ℤ, Bool, true, false, List, [], ◌∷◌, ◌++◌, Option, none, some, Text, codes,
  if◌then◌else◌, drop, length,
}
use waterproof_wrapper.Utils.Exceptions.{ApiError, coded_error}
use waterproof_wrapper.Platform.{
  Api, Piped, piped, pipe_failed, Forked, in_child, in_parent, fork_failed, Sent, sent, send_failed,
}

-- The two ends of a pipe: `fd[0]` is read from, `fd[1]` is written to.
pub record Ends : Type 0 where
  pub read_end : ℕ
  pub write_end : ℕ

pub record Worker : Type 0 where
  pub id : ℕ
  pub running : Bool
  pub message_queue : List Text
  pub stdin_fd : Ends
  pub stdout_fd : Ends
  pub interrupt_fd : Ends
  pub sertop_instance : ℕ

pub data Effect : Type 0 where
  notify : Effect
  opened : Ends → Effect
  close : ℕ → Effect
  interrupted : Effect
  terminated : ℕ → Effect
  failed : ℕ → ApiError → Effect
  responded : ℕ → Text → Effect

-- What the constructor comes to. In the child process it does not return: the process becomes sertop.
pub data Started : Type 0 where
  started : Worker → Started
  start_threw : ApiError → Started
  child : Started

unfoldable pub enqueue : Text → Worker → Worker × List Effect
enqueue message k = (record k { message_queue = k.message_queue ++ (message ∷ []) }, notify ∷ [])

-- The argument vector of sertop, without the null pointer at its end.
unfoldable pub params : Text → List Text → List Text
params sertop_path sertop_args = sertop_path ∷ codes "--print0" ∷ sertop_args

-- What the child process does before it becomes sertop, or exits with 1.
pub data ChildCall : Type 0 where
  closes : ℕ → ChildCall
  dup2 : ℕ → ℕ → ChildCall
  execv : Text → List Text → ChildCall

abbrev pub stdin_fileno : ℕ
stdin_fileno = 0

abbrev pub stdout_fileno : ℕ
stdout_fileno = 1

unfoldable pub child_calls : Ends → Ends → Ends → Text → List Text → List ChildCall
unfolding params
child_calls interrupt_fd stdin_fd stdout_fd sertop_path sertop_args =
    closes interrupt_fd.read_end
    ∷ closes interrupt_fd.write_end
    ∷ closes stdin_fd.write_end
    ∷ closes stdout_fd.read_end
    ∷ dup2 stdin_fd.read_end stdin_fileno
    ∷ dup2 stdout_fd.write_end stdout_fileno
    ∷ closes stdin_fd.read_end
    ∷ closes stdout_fd.write_end
    ∷ execv sertop_path (params sertop_path sertop_args)
    ∷ []

module _ (a : Api) where
  open a use {World, pipe, fork, format_code}

  abbrev pub Starting : Type 0
  Starting = World → (Started × List Effect) × World

  abbrev threw : Text → ℤ → List Effect → Starting
  threw message e effects w = ((start_threw (coded_error format_code message e), effects), w)

  -- The constructor from `fork` on.
  unfoldable pub start_forked : ℕ → Ends → Ends → Ends → Forked → Starting
  start_forked id interrupt_fd stdin_fd stdout_fd (fork_failed e) w =
      threw (codes "failed to fork") e
        (close stdin_fd.read_end
          ∷ close stdin_fd.write_end
          ∷ close stdout_fd.read_end
          ∷ close stdout_fd.write_end
          ∷ [])
        w
  start_forked id interrupt_fd stdin_fd stdout_fd in_child w = ((child, []), w)
  start_forked id interrupt_fd stdin_fd stdout_fd (in_parent pid) w = (
    (
      started (record {
        id = id;
        running = true;
        message_queue = [];
        stdin_fd = stdin_fd;
        stdout_fd = stdout_fd;
        interrupt_fd = interrupt_fd;
        sertop_instance = pid;
      }),
      close stdin_fd.read_end ∷ close stdout_fd.write_end ∷ [],
    ),
    w,
  )

  -- From the pipe from sertop on: `stdout_fd` has not been made yet, so only the other one is closed.
  unfoldable pub start_stdout : ℕ → Ends → Ends → Piped → Starting
  unfolding start_forked
  start_stdout id interrupt_fd stdin_fd (pipe_failed e) w =
      threw (codes "failed to create pipe to sertop") e
        (close stdin_fd.read_end ∷ close stdin_fd.write_end ∷ []) w
  start_stdout id interrupt_fd stdin_fd (piped r t) w =
      let stdout_fd : Ends = record { read_end = r; write_end = t } in
      let (forked, w') = fork w in
      let ((result, effects), w'') = start_forked id interrupt_fd stdin_fd stdout_fd forked w' in
      ((result, opened stdout_fd ∷ effects), w'')

  unfoldable pub start_stdin : ℕ → Ends → Piped → Starting
  unfolding start_stdout
  start_stdin id interrupt_fd (pipe_failed e) w =
      threw (codes "failed to create pipe to sertop") e [] w
  start_stdin id interrupt_fd (piped r t) w =
      let stdin_fd : Ends = record { read_end = r; write_end = t } in
      let (made, w') = pipe w in
      let ((result, effects), w'') = start_stdout id interrupt_fd stdin_fd made w' in
      ((result, opened stdin_fd ∷ effects), w'')

  unfoldable pub start_interrupt : ℕ → Piped → Starting
  unfolding start_stdin
  start_interrupt id (pipe_failed e) w = threw (codes "failed to create interrupt pipe") e [] w
  start_interrupt id (piped r t) w =
      let interrupt_fd : Ends = record { read_end = r; write_end = t } in
      let (made, w') = pipe w in
      let ((result, effects), w'') = start_stdin id interrupt_fd made w' in
      ((result, opened interrupt_fd ∷ effects), w'')

  -- The constructor. What it is given of sertop matters in the child process only: `child_calls`.
  unfoldable pub start : ℕ → Starting
  unfolding start_interrupt
  start id w = let (made, w') = pipe w in start_interrupt id made w'

-- `fail`.
unfoldable pub fail : ApiError → Worker → Worker × List Effect
fail error k =
    (record k { running = false }, notify ∷ close k.interrupt_fd.write_end ∷ failed k.id error ∷ [])

-- The interrupt of a running worker by its destructor: a character on the pipe, unless that fails.
unfoldable pub interrupt : Bool → Worker → List Effect
interrupt true k = notify ∷ interrupted ∷ []
interrupt false k = []

-- The destructor. `in_time` says whether sertop ended within 500 ms of the closing of its pipes. The
-- joins of the threads and the waiting are left out.
unfoldable pub destroy : Bool → Worker → List Effect
unfolding interrupt
destroy in_time k =
    interrupt k.running k
    ++ (close k.stdin_fd.write_end
        ∷ close k.stdout_fd.read_end
        ∷ ((if in_time then [] else terminated k.sertop_instance ∷ [])
            ++ (close k.interrupt_fd.read_end ∷ close k.interrupt_fd.write_end ∷ [])))
