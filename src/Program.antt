-- ===== src/Program.antt =====
-- src/main.cpp: the program waits until a signal comes or the conductor fails, and tells the conductor to
-- end. The set-up of the log and of the signal handlers is left out.
pub mod Exit
use waterproof_wrapper.Base.{
  ℤ, pos, Bool, true, false, List, [], ◌∷◌, Option, none, some, ◌&&◌, not, if◌then◌else◌,
}
use waterproof_wrapper.Utils.Exceptions.{ApiError}
use waterproof_wrapper.Conductor.{Conductor, has_failed, notify, destroy}

-- The console signals of Windows.
pub data ConsoleSignal : Type 0 where
  ctrl_c_event ctrl_close_event other_event : ConsoleSignal

-- `console_handler`: whether the signal was handled, and `keep_running`.
unfoldable pub console_handler : ConsoleSignal → Bool → Bool × Bool
console_handler ctrl_c_event keep_running = (true, false)
console_handler ctrl_close_event keep_running = (true, false)
console_handler other_event keep_running = (false, keep_running)

-- What the construction of the conductor gives.
pub data Construction : Type 0 where
  constructed : Conductor → Construction
  construct_threw : ApiError → Construction

-- A pass of the waiting: whether `keep_running` is still set, and the conductor, as its other threads
-- have left it.
pub record Pass : Type 0 where
  pub keep_running : Bool
  pub conductor : Conductor

-- How the program ends: its exit code, the conductor behind its destructor, and whether the signal was
-- logged.
pub record Exited : Type 0 where
  pub code : ℤ
  pub last : Option Conductor
  pub signal_logged : Bool

-- `while (keep_running.test_and_set() && !conductor->has_failed())`: the conductor at the end of the
-- loop, or none if the program waits on behind these passes.
unfoldable pub wait_loop : List Pass → Option Conductor
unfolding has_failed
wait_loop [] = none
wait_loop (p ∷ passes) =
    let rest = wait_loop passes in
    if p.keep_running && not (has_failed p.conductor) then rest else some p.conductor

-- From `conductor->notify()` on.
unfoldable pub finish : Option Conductor → Option Exited
unfolding notify has_failed destroy
finish none = none
finish (some c) =
    let c' = notify c in
    some (record { code = pos 0; last = some (destroy c'); signal_logged = not (has_failed c') })

unfoldable pub main : Construction → List Pass → Option Exited
unfolding wait_loop finish
main (construct_threw e) passes =
    some (record { code = e.error_number; last = none; signal_logged = false })
main (constructed c) passes = finish (wait_loop passes)
