-- ===== src/System/Input.antt =====
-- The requests of a client on their way: from its socket over the read thread of the server and the
-- conductor to the worker of the instance, and to the standard input of sertop.
pub mod Takes
pub mod Forwards
pub mod Order
use waterproof_wrapper.Base.{
  ℕ, true, false, List, [], ◌∷◌, ◌++◌, Option, some, Text, length, replicate,
}
use waterproof_wrapper.Platform.{Api}
use waterproof_wrapper.Message.{Request, Verb, Response}
use waterproof_wrapper.Server.Loops.{Revents}
use waterproof_wrapper.Server.Loops.Read.{ReadEvent, ready}
use waterproof_wrapper.Conductor.{Conductor}
use waterproof_wrapper.System.{System, Move, reads, runs}

abbrev pub a_forward : ℕ → Text → Request
a_forward id content = record { verb = Verb.forward; instance_id = id; content = content }

-- What `poll` says of a client of which there is nothing, and of one that can be read from.
abbrev pub quiet : Revents
quiet = record { gone = false; readable = false }

abbrev pub readable : Revents
readable = record { gone = false; readable = true }

-- The client behind so many others can be read from.
abbrev pub can_read : ℕ → ReadEvent
can_read n = ready quiet (replicate n quiet ++ (readable ∷ []))

-- So many rounds of the read thread in which that client can be read from, and one of the conductor.
abbrev pub takes : ℕ → ℕ → ℕ → List Move
takes fuel before n = replicate n (reads fuel (can_read before)) ++ (runs fuel ∷ [])

-- A conductor that goes on, with these requests, and its server.
abbrev pub going : Conductor → List Request → Conductor
going c requests = record c {
  server_failed = false;
  signal_received = false;
  server = record c.server { running = true };
  in_queue = requests;
}

-- A system whose read thread waits for this client between others.
abbrev pub waiting_for :
    {a : Api}
    → List (Option ℕ)
    → ℕ
    → List (Option ℕ)
    → List Response
    → Conductor
    → List Request
    → a.World
    → System a
waiting_for before client after sent c requests w = record {
  conductor = going c requests;
  watched = before ++ (some client ∷ after);
  world = w;
  sent = sent;
}
