-- ===== src/System/Input/Forwards.antt =====
-- A round of the conductor takes forward requests to a worker.
use waterproof_wrapper.Base.{
  ℕ, ◌≡◌, refl, sym, ap, subst, ◌∙◌, Bool, List, [], ◌∷◌, ◌++◌, append-nil, append_assoc, Option,
  none, some, Text, map, if◌then◌else◌, ==_refl,
}
use waterproof_wrapper.Base.Maps
use waterproof_wrapper.Base.Maps.{find, find-replace}
use waterproof_wrapper.Platform.{Api}
use waterproof_wrapper.Json.{Json}
use waterproof_wrapper.Message.{Response}
use waterproof_wrapper.Worker.Posix.{Worker}
use waterproof_wrapper.Worker.Posix as Posix
use waterproof_wrapper.Conductor.{
  Conductor, Flow, Effect, has_failed, handle_request, handle_verb, forward_to,
}
use waterproof_wrapper.Conductor.Round.{
  hand_over, after_requests, after_front, unless_failed, drain, round,
}
use waterproof_wrapper.System.{System, runs, after_turn, resume, move}
use waterproof_wrapper.System.Input.{a_forward, going, waiting_for}

module _ (a : Api) (j : Json) where
  -- The conductor with the worker `k` for the instance, after forward requests to it.
  abbrev HasQueue : ℕ → Worker → a.World → (Flow × Conductor × List Effect) × a.World → Type 0
  HasQueue id k w ((flow, c, effects), w') =
      (flow ≡ Flow.returns)
      × (find id c.workers ≡ some (some k))
      × (c.signal_received ≡ Bool.false)
      × (w' ≡ w)

  abbrev with_worker : ℕ → Worker → Conductor → Conductor
  with_worker id k c = record c { workers = Maps.insert id (some k) (Maps.erase id c.workers) }

  front-forward :
      (fuel id : ℕ) (text : Text) (k : Worker) (c : Conductor) (w : a.World)
      → find id c.workers ≡ some (some k)
      → handle_request a j fuel (a_forward id text) c w
        ≡ ((Flow.returns, with_worker id (Posix.enqueue text k).0 c, []), w)
  unfolding handle_request handle_verb forward_to
  front-forward fuel id text k c w e =
      ap (λ (o : Option (Option Worker)). (forward_to id text o c, w)) e

  found_again :
      (id : ℕ) (k : Worker) (c : Conductor) → find id (with_worker id k c).workers ≡ some (some k)
  found_again id k c =
      find-replace id id (some k) c.workers
      ∙ ap (λ (b : Bool). if b then some (some k) else find id c.workers) (==_refl id)

  drain-HasQueue :
      (fuel id : ℕ) (texts : List Text) (k : Worker) (c : Conductor) (w : a.World)
      → find id c.workers ≡ some (some k)
      → c.signal_received ≡ Bool.false
      → HasQueue id
          (record k { message_queue = k.message_queue ++ texts })
          w
          (drain a j fuel (map (a_forward id) texts) c w)
  unfolding drain after_front Posix.enqueue
  drain-HasQueue fuel id [] k c w e s = (
    refl,
    e ∙ ap (λ q. some (some (record k { message_queue = q }))) (sym (append-nil k.message_queue)),
    s,
    refl,
  )
  drain-HasQueue fuel id (text ∷ texts) k c w e s =
      let rs = map (a_forward id) texts in
      let d : Conductor = record c { in_queue = a_forward id text ∷ rs } in
      let k' : Worker = (Posix.enqueue text k).0 in
      let d' = with_worker id k' d in
      let all = record k { message_queue = k.message_queue ++ (text ∷ texts) } in
      subst (λ first. HasQueue id all w (after_front first (drain a j fuel rs first.0.1 first.1)))
        (sym (front-forward fuel id text k d w e))
        (subst (λ q. HasQueue id (record k { message_queue = q }) w (drain a j fuel rs d' w))
          (append_assoc k.message_queue (text ∷ []) texts)
          (drain-HasQueue fuel id texts k' d' w (found_again id k' d) s))

  -- A round of the conductor: the worker has the texts in its queue, and the world stays.
  abbrev pub HasWorker : ℕ → Worker → a.World → Option (System a) → Type 0
  HasWorker id k w none = ⊥
  HasWorker id k w (some s) = (find id s.conductor.workers ≡ some (some k)) × (s.world ≡ w)

  turned-HasWorker :
      (id : ℕ) (k : Worker) (watched : List (Option ℕ)) (sent : List Response) (w : a.World)
      (o : (Flow × Conductor × List Effect) × a.World)
      → HasQueue id k w o
      → let (turn, c) = after_requests o.0.0 o.0.1 in
        HasWorker id k w (resume watched o.1 sent (after_turn turn c))
  unfolding after_requests
  turned-HasWorker id k watched sent w ((Flow.returns, c, es), w') (e, f, s, g) =
      subst
        (λ b.
          let (turn, c') = hand_over b c in
          HasWorker id k w (resume watched w' sent (after_turn turn c')))
        (sym s) (unfold hand_over resume after_turn in (f, g))
  turned-HasWorker id k watched sent w ((Flow.undefined, c, es), w') (e, f, s, g) = cc
  turned-HasWorker id k watched sent w ((Flow.aborts, c, es), w') (e, f, s, g) = cc
  turned-HasWorker id k watched sent w ((Flow.becomes_child, c, es), w') (e, f, s, g) = cc
  turned-HasWorker id k watched sent w ((Flow.waits, c, es), w') (e, f, s, g) = cc

  pub move-HasWorker :
      (before after : List (Option ℕ)) (client id fuel : ℕ) (texts : List Text)
      (sent : List Response) (k : Worker) (c : Conductor) (w : a.World)
      → find id c.workers ≡ some (some k)
      → HasWorker id
          (record k { message_queue = k.message_queue ++ texts })
          w
          (move a j
            (runs fuel)
            (waiting_for before client after sent c (map (a_forward id) texts) w))
  unfolding move round unless_failed has_failed
  move-HasWorker before after client id fuel texts sent k c w e =
      let rs = map (a_forward id) texts in
      turned-HasWorker id (record k { message_queue = k.message_queue ++ texts })
        (before ++ (some client ∷ after)) sent w (drain a j fuel rs (going c rs) w)
        (drain-HasQueue fuel id texts k (going c rs) w e refl)
