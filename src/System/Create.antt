-- ===== src/System/Create.antt =====
-- A create request on its way: from the read thread over the conductor to the queue of the server.
use waterproof_wrapper.Base.{
  ℕ, ◌+◌, ◌%◌, ◌^◌, ◌≡◌, ◌≢◌, refl, sym, ap, subst, ◌∙◌, Bool, false, List, [], ◌∷◌, ◌++◌, Option,
  none, some, Text, ==_refl, if◌then◌else◌,
}
use waterproof_wrapper.Base.Maps
use waterproof_wrapper.Base.Maps.{find, find-insert, find-above, found_or}
use waterproof_wrapper.Utils.Config.{Config, Configured, configured, config}
use waterproof_wrapper.Platform.{Api}
use waterproof_wrapper.Json.{Json}
use waterproof_wrapper.Message.{Request, Verb, Response, Status}
use waterproof_wrapper.Server.Queue.{push, pop, greatest}
use waterproof_wrapper.Server.State.{Server}
use waterproof_wrapper.Server.State as State
use waterproof_wrapper.Server.Loops.Read.{take_request, take_verb}
use waterproof_wrapper.Server.Loops.Ids.{IsFresh}
use waterproof_wrapper.Worker.Posix.{Worker, Started, started, start_threw, child, start}
use waterproof_wrapper.Conductor.{
  join_refused-none, after_join_lem, Conductor, Flow, Effect, on_request, has_failed,
  handle_request, handle_verb, handle_create, create_worker, after_start, insert_worker,
  answer_create,
}
use waterproof_wrapper.Conductor.Responses.{create_response}
use waterproof_wrapper.Conductor.Round.{
  Turn, again, hand_out, hand_over, after_requests, after_front, unless_failed, drain, round,
}
use waterproof_wrapper.System.{deliver}

-- A conductor that has not failed and whose queues are empty, like its server's.
abbrev pub calm : Conductor → Conductor
calm c = record c {
  server_failed = false;
  signal_received = false;
  server = record c.server { response_queue = [] };
  in_queue = [];
  out_queue = [];
}

abbrev pub a_create : ℕ → Text → Request
a_create id content = record { verb = Verb.create; instance_id = id; content = content }

-- What a handled create request leaves: its answer, and the server as it was.
abbrev Handled : ℕ → Conductor → Flow × Conductor × List Effect → Type 0
Handled id c (flow, c', effects) =
    (flow ≡ Flow.returns)
    × (c'.signal_received ≡ c.signal_received)
    × (c'.server ≡ c.server)
    × ((response : Response) × (c'.out_queue ≡ response ∷ [])
        × (response.verb ≡ Verb.create)
        × (response.instance_id ≡ id))

insert_worker-keeps :
    (id : ℕ) (k : Worker) (c : Conductor) (o : Option (Option Worker))
    → let c' = (insert_worker id k c o).0 in
      (c'.signal_received ≡ c.signal_received)
      × (c'.server ≡ c.server)
      × (c'.out_queue ≡ c.out_queue)
unfolding insert_worker
insert_worker-keeps id k c none = (refl, refl, refl)
insert_worker-keeps id k c (some p) = (refl, refl, refl)

start-Handled :
    (n id : ℕ) (o : Started) (c : Conductor)
    → o ≢ child
    → c.out_queue ≡ []
    → Handled id c (after_start n id o c)
unfolding after_start answer_create
start-Handled n id (started k) c h e =
    let kept = insert_worker-keeps id k c (find id c.workers) in
    (
      refl,
      kept.0,
      kept.1,
      (
        create_response n id Status.success [],
        ap (λ q. q ++ (create_response n id Status.success [] ∷ [])) (kept.2 ∙ e),
        refl,
        refl,
      ),
    )
start-Handled n id (start_threw error) c h e = (
  refl,
  refl,
  refl,
  (
    create_response n id Status.failure error.what,
    ap (λ q. q ++ (create_response n id Status.failure error.what ∷ [])) e,
    refl,
    refl,
  ),
)
start-Handled n id child c h e = absurd (h refl)

module _ (a : Api) (j : Json) where
  create-Handled :
      (n id : ℕ) (o : Configured) (conf : Config) (c : Conductor) (w : a.World)
      → o ≡ configured conf
      → (start a id w).0.0 ≢ child
      → c.out_queue ≡ []
      → find id c.workers ≡ none
      → Handled id c (create_worker a j n id o c w).0
  unfolding create_worker
  create-Handled n id o conf c w e h q f =
      subst (λ o. Handled id c (create_worker a j n id o c w).0) (sym e)
        (subst (λ o. Handled id c o.0)
          (sym (after_join_lem _ _ _ _ _ (join_refused-none a (start a id w).0.0 _ f)))
          (start-Handled n id (start a id w).0.0 c h q))

-- The server holds one response, the answer to a create request for this instance, which is mapped to
-- this client.
abbrev pub HoldsAnswer : ℕ → ℕ → Server → Type 0
HoldsAnswer client id s =
    (response : Response) × (pop s.response_queue ≡ some (response, []))
    × (response.verb ≡ Verb.create)
    × (response.instance_id ≡ id)
    × (find id s.client_map ≡ some client)

abbrev pub Answers : ℕ → ℕ → Turn × Conductor → Type 0
Answers client id (turn, c) = (turn ≡ again) × HoldsAnswer client id c.server

handed-Answers :
    (client id : ℕ) (b : Bool) (c c' : Conductor) (response : Response)
    → b ≡ false
    → c'.server ≡ c.server
    → c'.out_queue ≡ response ∷ []
    → response.verb ≡ Verb.create
    → response.instance_id ≡ id
    → c.server.response_queue ≡ []
    → find id c.server.client_map ≡ some client
    → Answers client id (hand_over b c')
unfolding hand_over hand_out State.enqueue push pop
handed-Answers client id b c c' response e s out v i q m =
    subst (λ b. Answers client id (hand_over b c')) (sym e)
      (
        refl,
        subst (λ rs. HoldsAnswer client id (hand_out rs c'.server)) (sym out)
            (subst (λ s. HoldsAnswer client id (hand_out (response ∷ []) s)) (sym s)
              (response, unfold greatest in ap (λ rs. some (greatest response rs)) q, v, i, m)),
      )

module _ (a : Api) (j : Json) where
  requests-Answers :
      (client id fuel : ℕ) (c : Conductor) (first : (Flow × Conductor × List Effect) × a.World)
      → Handled id c first.0
      → c.signal_received ≡ false
      → c.server.response_queue ≡ []
      → find id c.server.client_map ≡ some client
      → let ran = after_front first (drain a j fuel [] first.0.1 first.1) in
        Answers client id (after_requests ran.0.0 ran.0.1)
  unfolding after_front drain after_requests
  requests-Answers client id fuel c ((Flow.returns, c', es), w) (e, s, sv, (response, out, v, i)) h
        q m =
      handed-Answers client id c'.signal_received c (record c' { in_queue = [] }) response (s ∙ h)
        sv out v i q m
  requests-Answers client id fuel c ((Flow.undefined, c', es), w) (e, s, sv, (response, out, v, i))
        h q m =
      cc
  requests-Answers client id fuel c ((Flow.aborts, c', es), w) (e, s, sv, (response, out, v, i)) h q
        m =
      cc
  requests-Answers client id fuel c ((Flow.becomes_child, c', es), w)
        (e, s, sv, (response, out, v, i)) h q m =
      cc
  requests-Answers client id fuel c ((Flow.waits, c', es), w) (e, s, sv, (response, out, v, i)) h q
        m =
      cc

  unfoldable pub and_round :
      ℕ → a.World → Option Conductor → Option ((Turn × Conductor × List Effect) × a.World)
  unfolding round
  and_round fuel w none = none
  and_round fuel w (some c) = some (round a j fuel c w)

  -- The read thread takes a request of a client, its callbacks run, and then a round of the conductor.
  unfoldable pub exchange :
      ℕ → ℕ → Request → Conductor → a.World → Option ((Turn × Conductor × List Effect) × a.World)
  unfolding take_request deliver and_round
  exchange fuel client request c w =
      let (server, effects) = take_request client request c.server in
      and_round fuel w (deliver a effects (record c { server = server }))

  abbrev pub AnswersSome : ℕ → ℕ → Option ((Turn × Conductor × List Effect) × a.World) → Type 0
  AnswersSome client id none = ⊥
  AnswersSome client id (some o) = Answers client id (o.0.0, o.0.1)

  -- A create request of a client of any id, which reaches a conductor that has not failed and whose
  -- queues are empty, while the mapped ids were handed out before and the new one has no worker: if its
  -- configuration is valid, and
  -- the constructor of the worker returns in this process, whether it fails or not, then behind the
  -- next round of the conductor, which goes on, the queue of the server holds one response, the answer
  -- to a create request for the new id, and that id is mapped to the client that sent the request.
  pub exchange-AnswersSome :
      (client i fuel : ℕ) (content : Text) (conf : Config) (c : Conductor) (w : a.World)
      → IsFresh c.server
      → find c.server.next_id c.workers ≡ none
      → config j content ≡ configured conf
      → (start a c.server.next_id w).0.0 ≢ child
      → AnswersSome client c.server.next_id (exchange fuel client (a_create i content) (calm c) w)
  unfolding exchange take_request take_verb deliver on_request and_round round unless_failed
      has_failed drain handle_request handle_verb handle_create
  exchange-AnswersSome client i fuel content conf c w fresh f e h =
      let id = c.server.next_id in
      let server : Server = record c.server {
        response_queue = [];
        next_id = (id + 1) % 2 ^ 32;
        client_map = Maps.insert id client c.server.client_map;
      } in
      let c₁ : Conductor = record (calm c) {
        server = server;
        in_queue = a_create id content ∷ [];
        next_id = (c.next_id + 1) % 2 ^ 64;
      } in
      requests-Answers client id fuel c₁ (create_worker a j c.next_id id (config j content) c₁ w)
        (create-Handled a j c.next_id id (config j content) conf c₁ w e h refl f) refl refl
        (find-insert id id client c.server.client_map
          ∙ ap
              (λ b.
                if b
                then some (found_or client (find id c.server.client_map))
                else find id c.server.client_map)
              (==_refl id)
          ∙ ap (λ o. some (found_or client o)) (find-above id c.server.client_map fresh))
