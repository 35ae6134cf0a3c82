-- ===== src/Tests/Systems.antt =====
-- Runs of the threads together, of the queue of responses, and of src/main.cpp.
use waterproof_wrapper.Base.{Holds, ◌≢◌, refl, arith, Bool, true, false, List, [], ◌∷◌, codes}
use waterproof_wrapper.Base.Maps.{find, subscript, insert, place}
use waterproof_wrapper.Platform.Pipe.{pipe}
use waterproof_wrapper.Json.Toy.{toy, entries}
use waterproof_wrapper.Message.{response_lt, response_to_json}
use waterproof_wrapper.Utils.Buffers.{write_uint32}
use waterproof_wrapper.Server.Queue.{greatest, pop, push}
use waterproof_wrapper.Server.Queue.Schedule.{emptied, IsSchedule, emptied-IsSchedule}
use waterproof_wrapper.Server.Frame.{write, write_raw, send_loop, after_send}
use waterproof_wrapper.Server.Loops.Write.{after_write, send_top, write_if, write_round}
use waterproof_wrapper.Server.State as State
use waterproof_wrapper.Conductor.{has_failed, handle_response, respond, create_empty_response}
use waterproof_wrapper.Conductor.Round.{
  round, drain, after_requests, hand_over, hand_out, unless_failed, after_front,
}
use waterproof_wrapper.System.{
  Move, writes, runs, responds, begun, play, move, resume, after_thread, after_turn, deliver, taken,
}
use waterproof_wrapper.Utils.Config.{config, default_config}
use waterproof_wrapper.Worker.Posix.{
  child, start, start_interrupt, start_stdin, start_stdout, start_forked,
}
use waterproof_wrapper.System.Create.{a_create, calm, exchange, AnswersSome, exchange-AnswersSome}
use waterproof_wrapper.System.Unique.{IsSound, Lasts, play_begun-IsSound}
use waterproof_wrapper.Program.{Pass, constructed, main}
use waterproof_wrapper.Program.Exit.{EndsQuietly, main-EndsQuietly}
use waterproof_wrapper.Tests.Messages.{a_response}
use waterproof_wrapper.Tests.Servers.{empty_connection}
use waterproof_wrapper.Tests.Conductors.{a_conductor}

emptied-IsSchedule_example :
    IsSchedule
      (a_response 3 0 ∷ a_response 5 1 ∷ a_response 2 0 ∷ [])
      (emptied 3 (a_response 3 0 ∷ a_response 5 1 ∷ a_response 2 0 ∷ []))
emptied-IsSchedule_example =
    emptied-IsSchedule 3 (a_response 3 0 ∷ a_response 5 1 ∷ a_response 2 0 ∷ []) (omega arith)

-- Two answers of workers, which the conductor hands over, and of which the server sends one.
abbrev moves : List Move
moves = responds 7 (codes "a") ∷ responds 8 (codes "b") ∷ runs 100 ∷ writes 100 ∷ []

moves-Lasts : Lasts pipe toy moves (begun pipe 3 4 5 empty_connection)
unfolding move resume after_thread after_turn deliver taken round drain after_requests hand_over
    hand_out unless_failed after_front has_failed handle_response respond create_empty_response
    State.enqueue push write_round write_if send_top after_write pop greatest response_lt subscript
    find insert place write write_raw send_loop after_send write_uint32 toy entries response_to_json
moves-Lasts = (omega arith, (omega arith, (omega arith, (omega arith, tt))))

play_begun-IsSound_example : Holds IsSound (play pipe toy moves (begun pipe 3 4 5 empty_connection))
play_begun-IsSound_example = play_begun-IsSound pipe toy 3 4 5 empty_connection moves moves-Lasts

-- Nothing happens in the first pass, and a signal comes in the second.
abbrev pass : Bool → Pass
pass keep_running = record { keep_running = keep_running; conductor = a_conductor }

main-EndsQuietly_example :
    EndsQuietly pipe toy a_conductor (main (constructed a_conductor) (pass true ∷ pass false ∷ []))
main-EndsQuietly_example =
    main-EndsQuietly pipe toy a_conductor (pass true ∷ []) [] (pass false)
      (unfold has_failed in (refl, tt)) refl

started_here : (start pipe a_conductor.server.next_id empty_connection).0.0 ≢ child
unfolding start start_interrupt start_stdin start_stdout start_forked
started_here e = cc

exchange-AnswersSome_example :
    AnswersSome pipe toy 22 9
      (exchange pipe toy 100 22 (a_create 0 []) (calm a_conductor) empty_connection)
exchange-AnswersSome_example =
    exchange-AnswersSome pipe toy 22 0 100 [] default_config a_conductor empty_connection
      (omega arith, (omega arith, (omega arith, tt))) (unfold find in refl) (unfold config in refl)
      started_here
