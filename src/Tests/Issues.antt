-- ===== src/Tests/Issues.antt =====
-- A run in which a client comes, and its create request makes a worker that reports.
use waterproof_wrapper.Base.{Holds, arith, List, [], ◌∷◌, codes, Text}
use waterproof_wrapper.Platform.{sent}
use waterproof_wrapper.Platform.Pipe.{Connection, pipe}
use waterproof_wrapper.Json.Toy.{toy, entries}
use waterproof_wrapper.Message.{request_to_json}
use waterproof_wrapper.Server.Frame.RoundTrip.{frame}
use waterproof_wrapper.Server.Loops.Accept as Accept
use waterproof_wrapper.Server.Loops.Accept.{accepted}
use waterproof_wrapper.Server.Loops.Read.{ready}
use waterproof_wrapper.System.{Move, accepts, reads, writes, runs, responds, begun, play}
use waterproof_wrapper.Base.Maps.{find, insert, place, subscript}
use waterproof_wrapper.Utils.Buffers.{write_uint32, read_uint32}
use waterproof_wrapper.Utils.Config.{config}
use waterproof_wrapper.Message.{response_to_json, response_lt, request_from_json}
use waterproof_wrapper.Server.Queue.{greatest, pop, push}
use waterproof_wrapper.Server.Frame.{
  write, write_raw, send_loop, after_send, read, read_body, recv_loop, after_recv, header_length,
}
use waterproof_wrapper.Server.Loops.Write.{after_write, send_top, write_if, write_round}
use waterproof_wrapper.Server.State as State
use waterproof_wrapper.Server.Loops.Accept.{accept_round, accept_polled, admit, wake}
use waterproof_wrapper.Server.Loops.Read.{
  read_round, read_polled, refresh, take_ack, after_ack, watch_next, watch_client, serve_all, serve,
  serve_client, after_serve, after_read, take_request, take_verb, invalidate_all,
}
use waterproof_wrapper.Worker.Posix.{
  start, start_interrupt, start_stdin, start_stdout, start_forked,
}
use waterproof_wrapper.Conductor.{
  has_failed, join_refused, handle_response, respond, create_empty_response, on_request,
  handle_request, handle_verb, handle_create, create_worker, after_start, insert_worker,
  answer_create,
}
use waterproof_wrapper.Conductor.Round.{
  round, drain, after_requests, hand_over, hand_out, unless_failed, after_front,
}
use waterproof_wrapper.System.{move, resume, after_thread, after_turn, deliver, taken}
use waterproof_wrapper.System.Create.{a_create}
use waterproof_wrapper.System.Input.{quiet, readable, can_read}
use waterproof_wrapper.System.Issued.{IsIssued}
use waterproof_wrapper.System.Issued.Moves.{Fair, play_begun-IsIssued}

abbrev raw : Text
unfolding toy entries request_to_json
raw = request_to_json toy (a_create 0 [])

-- The character that wakes the read thread, and the request.
abbrev arriving : Connection
arriving = record { incoming = 1 ∷ frame raw; outgoing = []; next_fd = 30 }

abbrev moves : List Move
moves =
    accepts (Accept.ready quiet readable (accepted 22) (sent 1 ∷ []))
    ∷ reads 100 (ready readable [])
    ∷ reads 200 (can_read 0)
    ∷ runs 100
    ∷ responds 0 (codes "ok")
    ∷ writes 200
    ∷ []

moves-Fair : Fair pipe toy moves (begun pipe 3 4 5 arriving)
unfolding move resume after_thread after_turn deliver taken round drain after_requests hand_over
    hand_out unless_failed after_front has_failed handle_request handle_verb handle_create
    create_worker join_refused after_start insert_worker answer_create config start start_interrupt
    start_stdin start_stdout start_forked on_request handle_response respond create_empty_response
    State.enqueue push write_round write_if send_top after_write pop greatest response_lt subscript
    find insert place write write_raw send_loop after_send write_uint32 toy entries request_to_json
    response_to_json raw accept_round accept_polled admit wake read_round read_polled refresh
    take_ack after_ack watch_next watch_client serve_all serve serve_client after_serve after_read
    take_request take_verb read read_body recv_loop after_recv header_length read_uint32
    request_from_json invalidate_all
moves-Fair = (
  omega arith,
  tt,
  (
    omega arith,
    tt,
    (omega arith, tt, (omega arith, tt, (omega arith, omega arith, (omega arith, tt, tt)))),
  ),
)

play_begun-IsIssued_example : Holds IsIssued (play pipe toy moves (begun pipe 3 4 5 arriving))
play_begun-IsIssued_example = play_begun-IsIssued pipe toy 3 4 5 arriving moves moves-Fair
