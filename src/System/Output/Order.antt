-- ===== src/System/Output/Order.antt =====
-- The order in which the messages of a worker reach its client.
use waterproof_wrapper.Base.{
  ℕ, ℤ, suc, ◌+◌, ◌%◌, ◌^◌, ◌<◌, ◌≤◌, ◌≡◌, refl, sym, ap, subst, ◌∙◌, arith, true, List, [], ◌∷◌,
  ◌++◌, append-nil, append_assoc, some, Text, pos, length, map, All,
}
use waterproof_wrapper.Base.Maps.{find}
use waterproof_wrapper.Platform.{Api, IsStream, IsReliable}
use waterproof_wrapper.Json.{Json}
use waterproof_wrapper.Message.{Response, Status, Verb, response_lt, response_to_json}
use waterproof_wrapper.Server.Queue.{push, pop, greatest}
use waterproof_wrapper.Server.Frame.RoundTrip.{frame, IsShort}
use waterproof_wrapper.Server.State.{Server}
use waterproof_wrapper.Server.State as State
use waterproof_wrapper.Server.Loops.{Next}
use waterproof_wrapper.Server.Loops.Write.{write_round}
use waterproof_wrapper.Server.Loops.Delivery.{write_round-Delivered}
use waterproof_wrapper.Worker.Parse.{count_nul}
use waterproof_wrapper.Worker.Parse.Split.{terminated}
use waterproof_wrapper.Worker.Posix.{Worker, responded}
use waterproof_wrapper.Worker.Posix.Loops.{Round, read_loop}
use waterproof_wrapper.Worker.Posix.Loops.Stream.{reads, joined, read_loop-terminated}
use waterproof_wrapper.Conductor.{
  Conductor, Flow, handle_response, respond, create_empty_response, has_failed,
}
use waterproof_wrapper.Conductor.Round.{
  Turn, again, hand_out, hand_over, after_requests, unless_failed, drain, round,
}
use waterproof_wrapper.Conductor.Round.Laws.{upon}
use waterproof_wrapper.System.Create.{calm}
use waterproof_wrapper.System.Output.{report, next_round, write_rounds, relay, relay_on, answers}

-- The answer to one message.
abbrev answer : ℕ → ℕ → Text → Response
answer n id text = record {
  id = n;
  priority = pos 0;
  status = Status.success;
  verb = Verb.forward;
  instance_id = id;
  content = text;
}

abbrev with_answers : Conductor → ℕ → List Response → Conductor
with_answers c n rs = record c { next_id = n; out_queue = rs }

report-responded :
    (id : ℕ) (texts : List Text) (c : Conductor)
    → c.next_id + length texts < 2 ^ 64
    → report (map (responded id) texts) c ≡ (
      Flow.returns,
      with_answers c (c.next_id + length texts) (c.out_queue ++ answers c.next_id id texts),
    )
unfolding report handle_response respond create_empty_response
report-responded id [] c h =
    ap (λ n. (Flow.returns, with_answers c n c.out_queue)) (omega arith)
    ∙ ap (λ rs. (Flow.returns, with_answers c (c.next_id + 0) rs)) (sym (append-nil c.out_queue))
report-responded id (text ∷ texts) c h =
    let n = c.next_id in
    let e : (n + 1) % 2 ^ 64 ≡ suc n = omega (arith, h) in
    let queue = c.out_queue ++ (answer n id text ∷ []) in
    report-responded id texts (with_answers c ((n + 1) % 2 ^ 64) queue) (omega (arith, h, e))
    ∙ ap (λ m. (Flow.returns, with_answers c (m + length texts) (queue ++ answers m id texts))) e
    ∙ ap (λ m. (Flow.returns, with_answers c m (queue ++ answers (suc n) id texts))) (omega arith)
    ∙ ap (λ rs. (Flow.returns, with_answers c (n + suc (length texts)) rs))
        (append_assoc c.out_queue (answer n id text ∷ []) (answers (suc n) id texts))

pub hand_out-upon :
    (rs : List Response) (s : Server)
    → hand_out rs s ≡ record s { response_queue = upon rs s.response_queue }
unfolding hand_out State.enqueue push
hand_out-upon [] s = refl
hand_out-upon (r ∷ rs) s = hand_out-upon rs (State.enqueue r s).0

-- An older answer is greater.
older : (n m id i : ℕ) (s t : Text) → m < n → response_lt (answer n id s) (answer m i t) ≡ true
unfolding response_lt
older n m id i s t h = ground arith

-- What the queue gives when answers with later ids were pushed on it.
pop-upon :
    (id n m i : ℕ) (text : Text) (texts : List Text) (rest : List Response) (top : Response)
    (left : List Response)
    → m < n
    → greatest (answer m i text) rest ≡ (top, left)
    → pop (upon (answers n id texts) (answer m i text ∷ rest))
      ≡ some (top, upon (answers n id texts) left)
unfolding pop
pop-upon id n m i text [] rest top left h e = ap some e
pop-upon id n m i text (t ∷ texts) rest top left h e =
    pop-upon id (suc n) n id t texts (answer m i text ∷ rest) top (answer n id t ∷ left)
      (omega arith)
      (unfold greatest in
        rw (older n m id i t text h)
          (ap (λ (o : Response × List Response). (o.0, answer n id t ∷ o.1)) e))

abbrev pub frames : List Text → Text
frames [] = []
frames (raw ∷ raws) = frame raw ++ frames raws

next_round-again :
    {W : Type 0} (rest : Server → W → (Next × Server) × W) (s : Server)
    (o : (Next × Server × List State.Effect) × W)
    → o.0.0 ≡ Next.again
    → o.0.1 ≡ s
    → next_round rest o ≡ rest s o.1
unfolding next_round
next_round-again rest s ((Next.again, s', es), w) e h = ap (λ s. rest s w) h
next_round-again rest s ((Next.leave, s', es), w) e h = cc
next_round-again rest s ((Next.undefined, s', es), w) e h = cc
next_round-again rest s ((Next.aborts, s', es), w) e h = cc
next_round-again rest s ((Next.spins, s', es), w) e h = cc

module _ (a : Api) (stream : IsStream a) (client : ℕ) (j : Json) where
  open stream use {outbox}

  -- The JSON texts of the answers from this id on, which are short, and for which this fuel is enough.
  abbrev pub Dumped : ℕ → ℕ → ℕ → List Text → List Text → Type 0
  Dumped fuel n id [] [] = Unit
  Dumped fuel n id [] (raw ∷ raws) = ⊥
  Dumped fuel n id (text ∷ texts) [] = ⊥
  Dumped fuel n id (text ∷ texts) (raw ∷ raws) =
      (j.dump (response_to_json j (answer n id text)) ≡ some raw)
      × IsShort raw
      × (length (frame raw) ≤ fuel)
      × Dumped fuel (suc n) id texts raws

  abbrev holding : Server → List Response → Server
  holding s rs = record s { response_queue = rs }

  write_rounds-frames :
      IsReliable a stream client
      → (fuel n id : ℕ) (texts raws : List Text) (s : Server) (w : a.World) → s.running ≡ true
      → find id s.client_map ≡ some client
      → Dumped fuel n id texts raws
      → let o = write_rounds a j fuel (length texts) (holding s (upon (answers n id texts) [])) w in
        (o.0 ≡ (Next.again, holding s [])) × (outbox client o.1 ≡ outbox client w ++ frames raws)
  unfolding write_rounds
  write_rounds-frames reliable fuel n id [] [] s w run m d =
      (refl, sym (append-nil (outbox client w)))
  write_rounds-frames reliable fuel n id [] (raw ∷ raws) s w run m d = absurd d
  write_rounds-frames reliable fuel n id (text ∷ texts) [] s w run m d = absurd d
  write_rounds-frames reliable fuel n id (text ∷ texts) (raw ∷ raws) s w run m d =
      let left = upon (answers (suc n) id texts) [] in
      let queued = holding s (upon (answers n id (text ∷ texts)) []) in
      let o = write_round a j fuel queued w in
      let sent =
        write_round-Delivered a stream client j reliable fuel (answer n id text) left raw queued w
          run
          (pop-upon id (suc n) n id text texts [] (answer n id text) [] (omega arith)
            (unfold greatest in refl))
          m d.0 d.1 d.2 in
      let rest = write_rounds-frames reliable fuel (suc n) id texts raws s o.1 run m d.3 in
      let e =
        next_round-again (write_rounds a j fuel (length texts)) (holding s left) o sent.0 sent.1 in
      (
        ap (λ (p : (Next × Server) × a.World). p.0) e ∙ rest.0,
        ap (λ (p : (Next × Server) × a.World). outbox client p.1) e
            ∙ rest.1
            ∙ ap (λ t. t ++ frames raws) sent.3
            ∙ append_assoc (outbox client w) (frame raw) (frames raws),
      )

  -- What the relay comes to: the loops go on, nothing is left in the queue, and the client has these.
  abbrev pub Relayed : List Text → a.World → Turn × ((Next × Server) × a.World) → Type 0
  Relayed raws w r =
      (r.0 ≡ again)
      × (r.1.0.0 ≡ Next.again)
      × (r.1.0.1.response_queue ≡ [])
      × (outbox client r.1.1 ≡ outbox client w ++ frames raws)

  relay-Relayed :
      IsReliable a stream client
      → (fuel id : ℕ) (texts raws : List Text) (c : Conductor) (w : a.World)
      → c.server.running ≡ true
      → find id c.server.client_map ≡ some client
      → c.next_id + length texts < 2 ^ 64
      → Dumped fuel c.next_id id texts raws
      → Relayed raws w (relay a j fuel (length texts) (map (responded id) texts) (calm c) w)
  unfolding relay relay_on
  relay-Relayed reliable fuel id texts raws c w run m small d =
      let rs = answers c.next_id id texts in
      let rounds = write_rounds a j fuel (length texts) in
      let sent =
        write_rounds-frames reliable fuel c.next_id id texts raws (calm c).server w run m d in
      subst (λ o. Relayed raws w (relay_on a j fuel (length texts) o w))
        (sym (report-responded id texts (calm c) small))
        (unfold round unless_failed has_failed drain after_requests hand_over in
          subst (λ s. Relayed raws w (again, rounds s w)) (sym (hand_out-upon rs (calm c).server))
            (
              refl,
              ap (λ (p : Next × Server). p.0) sent.0,
              ap (λ (p : Next × Server). p.1.response_queue) sent.0,
              sent.1,
            ))

  -- What sertop writes reaches the client of its instance. Messages without null characters, each ended
  -- by one, cut into reads in any way, are read by the running worker of an instance that is mapped to
  -- this client; the conductor has not failed and its queues and the server's are empty; after the
  -- callbacks, a round of the conductor and a round of the write thread for each message, the client has
  -- got one message for each, whole and in the order in which sertop wrote them; no response is left,
  -- and the loops go on. The server runs, no call on the client's socket fails, the ids do not run out,
  -- and each answer has a short JSON text and fuel for it.
  pub output-Relayed :
      IsReliable a stream client
      → (fuel : ℕ) (format_code : Text → ℤ → Text) (k : Worker) (pieces texts raws : List Text)
        (c : Conductor) (w : a.World)
      → k.running ≡ true
      → All (λ m. count_nul m ≡ 0) texts
      → joined pieces ≡ terminated texts
      → c.server.running ≡ true
      → find k.id c.server.client_map ≡ some client
      → c.next_id + length texts < 2 ^ 64
      → Dumped fuel c.next_id k.id texts raws
      → Relayed raws w
          (relay a j fuel (length texts) (read_loop format_code (reads pieces) [] k).3 (calm c) w)
  output-Relayed reliable fuel format_code k pieces texts raws c w reading clean cut run m small d =
      subst (λ es. Relayed raws w (relay a j fuel (length texts) es (calm c) w))
        (sym (
          ap (λ (o : Round). o.3)
            (read_loop-terminated format_code k reading texts pieces clean cut)))
        (relay-Relayed reliable fuel k.id texts raws c w run m small d)
