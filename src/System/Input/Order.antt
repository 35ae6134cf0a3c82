-- ===== src/System/Input/Order.antt =====
-- The order in which the requests of a client reach its worker.
use waterproof_wrapper.Base.{
  ℕ, ◌≤◌, ◌≡◌, sym, ap, subst, ◌∙◌, true, List, [], ◌∷◌, ◌++◌, append-nil, append_assoc, Option,
  none, some, Text, length, replicate, map, All,
}
use waterproof_wrapper.Base.Bits.{IsU32}
use waterproof_wrapper.Base.Maps.{find}
use waterproof_wrapper.Platform.{Api, IsStream, IsReliable}
use waterproof_wrapper.Json.{Json, IsJson}
use waterproof_wrapper.Message.{Request, Response, request_to_json}
use waterproof_wrapper.Server.Frame.RoundTrip.{frame, IsShort, read-request}
use waterproof_wrapper.Worker.Posix.{Worker}
use waterproof_wrapper.Worker.Posix.Loops as Worker
use waterproof_wrapper.Worker.Posix.Loops.{locked, write_loop}
use waterproof_wrapper.Worker.Posix.Loops.Order.{IsOpen, queued, write_loop-joined}
use waterproof_wrapper.Worker.Posix.Loops.Stream.{joined}
use waterproof_wrapper.Conductor.{Conductor}
use waterproof_wrapper.System.{System, Move, reads, runs, and_then, move, play}
use waterproof_wrapper.System.Output.Order.{frames}
use waterproof_wrapper.System.Input.Takes.{move-reads}
use waterproof_wrapper.System.Input.Forwards.{HasWorker, move-HasWorker}
use waterproof_wrapper.System.Input.{a_forward, can_read, takes, waiting_for}

module _ (j : Json) where
  -- The JSON texts of forward requests to an instance, which are short.
  abbrev pub Requests : ℕ → List Text → List Text → Type 0
  Requests id [] [] = Unit
  Requests id [] (raw ∷ raws) = ⊥
  Requests id (text ∷ texts) [] = ⊥
  Requests id (text ∷ texts) (raw ∷ raws) =
      (j.dump (request_to_json j (a_forward id text)) ≡ some raw)
      × IsShort raw
      × Requests id texts raws

module _ (a : Api) (stream : IsStream a) (client : ℕ) (j : Json) where
  open stream use {inbox}

  -- The system has come to a state in which that worker has these messages, and its write loop writes
  -- them to the pipe, whole and in order, and then waits.
  abbrev pub Written :
      (fd : ℕ) → IsOpen a fd → ℕ → ℕ → Worker → List Text → Text → Option (System a) → Type 0
  Written fd p fuel id k messages rest none = ⊥
  Written fd p fuel id k messages rest (some s) =
      (find id s.conductor.workers ≡ some (some (queued a fd p k messages)))
      × (inbox client s.world ≡ rest)
      × ((v : a.World) × (write_loop a fuel (replicate (length messages) locked)
              (queued a fd p k messages) s.world
            ≡ ((Worker.Next.waits, queued a fd p k [], []), v))
          × (p.taken v ≡ p.taken s.world ++ joined messages))

  written :
      (fd : ℕ) (p : IsOpen a fd) (fuel id : ℕ) (k : Worker) (messages : List Text) (rest : Text)
      (w : a.World) (o : Option (System a))
      → k.running ≡ true
      → k.stdin_fd.write_end ≡ fd
      → All (λ m. length m ≤ fuel) messages
      → inbox client w ≡ rest
      → HasWorker a j id (queued a fd p k messages) w o
      → Written fd p fuel id k messages rest o
  written fd p fuel id k messages rest w none run to_fd enough i h = absurd h
  written fd p fuel id k messages rest w (some s) run to_fd enough i (f, e) = (
    f,
    ap (inbox client) e ∙ i,
    write_loop-joined a fd p fuel k messages s.world run to_fd enough,
  )

  then-Written :
      (fd : ℕ) (p : IsOpen a fd) (fuel id : ℕ) (k : Worker) (messages : List Text) (rest : Text)
      (o : Option (System a))
      → Written fd p fuel id k messages rest o
      → Written fd p fuel id k messages rest (and_then o (play a j []))
  unfolding and_then play
  then-Written fd p fuel id k messages rest none h = h
  then-Written fd p fuel id k messages rest (some s) h = h

module _ (a : Api) (stream : IsStream a) (client : ℕ) (reliable : IsReliable a stream client)
    (j : Json) where
  open stream use {inbox}

  play-reads :
      IsJson j
      → (before after : List (Option ℕ)) (id fuel : ℕ) (texts raws : List Text) (rest : Text)
        (ms : List Move) (sent : List Response) (c : Conductor) (rs : List Request) (w : a.World)
      → IsU32 id
      → Requests j id texts raws
      → inbox client w ≡ frames raws ++ rest
      → (w' : a.World) × (play a j
            (replicate (length texts) (reads fuel (can_read (length before))) ++ ms)
            (waiting_for before client after sent c rs w)
          ≡ play a j ms
              (waiting_for before client after sent c (rs ++ map (a_forward id) texts) w'))
        × (inbox client w' ≡ rest)
  unfolding play and_then
  play-reads laws before after id fuel [] [] rest ms sent c rs w small d i = (
    w,
    ap (λ q. play a j ms (waiting_for before client after sent c q w)) (sym (append-nil rs)),
    i,
  )
  play-reads laws before after id fuel [] (raw ∷ raws) rest ms sent c rs w small d i = absurd d
  play-reads laws before after id fuel (text ∷ texts) [] rest ms sent c rs w small d i = absurd d
  play-reads laws before after id fuel (text ∷ texts) (raw ∷ raws) rest ms sent c rs w small d i =
      let r = a_forward id text in
      let more = replicate (length texts) (reads fuel (can_read (length before))) ++ ms in
      let (v, e, f) =
        read-request a stream client reliable j laws r raw (frames raws ++ rest) w small d.0 d.1
          (i ∙ append_assoc (frame raw) (frames raws) rest) in
      let (w', g, h) =
        play-reads laws before after id fuel texts raws rest ms sent c (rs ++ (r ∷ [])) v small d.2
          f in
      (
        w',
        ap (λ o. and_then o (play a j more))
              (move-reads a j before after client id fuel text sent c rs w v e)
            ∙ g
            ∙ ap (λ q. play a j ms (waiting_for before client after sent c q w'))
                (append_assoc rs (r ∷ []) (map (a_forward id) texts)),
        h,
      )

  -- What a client sends reaches sertop. The messages of forward requests to one instance stand on the
  -- client's socket, in whatever pieces they come; the client is watched by the read thread, between any
  -- others; and the instance has a worker. After a round of the read thread for each request, in which
  -- only this client can be read from, and a round of the conductor, the system goes on: what follows
  -- on the socket is left there, the worker has the contents of the requests behind its messages, in
  -- order, and its write loop writes all of these to sertop, whole and in order, and waits. The server
  -- and the worker run, the conductor has not failed and has no other request, no call on the client's
  -- socket or on the pipe fails, the instance's id fits 32 bits, the requests' JSON texts are shorter
  -- than 2 ^ 31 bytes, and there is fuel for the bytes of each message.
  pub input-Written :
      (fd : ℕ) (p : IsOpen a fd) (laws : IsJson j) (before after : List (Option ℕ)) (id fuel : ℕ)
      (texts raws : List Text) (rest : Text) (sent : List Response) (k : Worker) (c : Conductor)
      (w : a.World)
      → IsU32 id
      → Requests j id texts raws
      → inbox client w ≡ frames raws ++ rest
      → find id c.workers ≡ some (some k)
      → k.running ≡ true
      → k.stdin_fd.write_end ≡ fd
      → All (λ m. length m ≤ fuel) (k.message_queue ++ texts)
      → Written a stream client j fd p fuel id k (k.message_queue ++ texts) rest (
          play a j
            (takes fuel (length before) (length texts))
            (waiting_for before client after sent c [] w))
  input-Written fd p laws before after id fuel texts raws rest sent k c w small d i e run to_fd
        enough =
      let all = k.message_queue ++ texts in
      let (v, g, h) =
        play-reads laws before after id fuel texts raws rest (runs fuel ∷ []) sent c [] w small d
          i in
      let s : System a = waiting_for before client after sent c (map (a_forward id) texts) v in
      subst (Written a stream client j fd p fuel id k all rest) (sym g) (
        unfold play in
        then-Written a stream client j fd p fuel id k all rest (move a j (runs fuel) s) (
          written a stream client j fd p fuel id k all rest v (move a j (runs fuel) s) run to_fd
            enough h (move-HasWorker a j before after client id fuel texts sent k c v e)))
