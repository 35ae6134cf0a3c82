-- ===== src/Server/Loops/Delivery.antt =====
-- What a round of the write thread sends.
use waterproof_wrapper.Base.{
  ℕ, ◌≤◌, ◌≡◌, refl, sym, subst, true, List, [], ◌++◌, some, Text, length,
}
use waterproof_wrapper.Base.Maps.{find, subscript_found}
use waterproof_wrapper.Platform.{Api, IsStream, IsReliable}
use waterproof_wrapper.Json.{Json}
use waterproof_wrapper.Message.{Response, response_to_json}
use waterproof_wrapper.Server.Queue.{pop}
use waterproof_wrapper.Server.Frame.{Outcome, done, write}
use waterproof_wrapper.Server.Frame.RoundTrip.{frame, IsShort}
use waterproof_wrapper.Server.Frame.Write.{write-frame}
use waterproof_wrapper.Server.State.{Server, Effect}
use waterproof_wrapper.Server.Loops.{Next}
use waterproof_wrapper.Server.Loops.Write.{after_write, send_top, write_if, write_round}

module _ (a : Api) (stream : IsStream a) (client : ℕ) (j : Json) where
  open stream use {outbox}

  -- A round that sent this text: the loop goes on, the queue holds the other responses, nothing else
  -- of the server changes and nothing is reported, and the client gets the message.
  abbrev pub Delivered :
      Text → List Response → Server → a.World → (Next × Server × List Effect) × a.World → Type 0
  Delivered raw others s w o =
      (o.0.0 ≡ Next.again)
      × (o.0.1 ≡ record s { response_queue = others })
      × (o.0.2 ≡ [])
      × (outbox client o.1 ≡ outbox client w ++ frame raw)

  after_write-Delivered :
      (raw : Text) (others : List Response) (s : Server) (w : a.World)
      (o : Outcome (Unit {0}) × a.World)
      → o.0 ≡ done tt
      → outbox client o.1 ≡ outbox client w ++ frame raw
      → Delivered raw others s w
          (after_write client (record s { response_queue = others }) o.0, o.1)
  after_write-Delivered raw others s w o e h =
      subst
        (λ r.
          Delivered raw others s w
            (after_write client (record s { response_queue = others }) r, o.1))
        (sym e) (unfold after_write in (refl, refl, refl, h))

  top-Delivered :
      IsReliable a stream client
      → (fuel : ℕ) (top : Response) (others : List Response) (raw : Text) (s : Server) (w : a.World)
      → find top.instance_id s.client_map ≡ some client
      → j.dump (response_to_json j top) ≡ some raw
      → IsShort raw
      → length (frame raw) ≤ fuel
      → Delivered raw others s w (send_top a j fuel (some (top, others)) s w)
  unfolding send_top
  top-Delivered reliable fuel top others raw s w m d short enough =
      let wrote = write-frame a stream client j reliable fuel top raw w d short enough in
      subst
        (λ found. Delivered raw others s w (
          after_write found.0 (record s { response_queue = others; client_map = found.1 })
              (write a j fuel found.0 top w).0,
          (write a j fuel found.0 top w).1,
        ))
        (sym (subscript_found top.instance_id 0 client s.client_map m))
        (after_write-Delivered raw others s w (write a j fuel client top w) wrote.0 wrote.1)

  -- A round of the write thread of a running server, whose queue gives a response for a mapped
  -- instance, sends that response as one message to the client of the instance, takes it off the
  -- queue, and goes on; nothing else of the server changes and nothing is reported. On the socket of
  -- the client no call fails, the response has a JSON text shorter than 2 ^ 31 bytes, and the loops
  -- may run as often as the message has bytes.
  pub write_round-Delivered :
      IsReliable a stream client
      → (fuel : ℕ) (top : Response) (others : List Response) (raw : Text) (s : Server) (w : a.World)
      → s.running ≡ true
      → pop s.response_queue ≡ some (top, others)
      → find top.instance_id s.client_map ≡ some client
      → j.dump (response_to_json j top) ≡ some raw
      → IsShort raw
      → length (frame raw) ≤ fuel
      → Delivered raw others s w (write_round a j fuel s w)
  unfolding write_round write_if
  write_round-Delivered reliable fuel top others raw s w run p m d short enough =
      subst (λ b. Delivered raw others s w (write_if a j b fuel s w)) (sym run)
        (subst (λ o. Delivered raw others s w (send_top a j fuel o s w)) (sym p)
          (top-Delivered reliable fuel top others raw s w m d short enough))
