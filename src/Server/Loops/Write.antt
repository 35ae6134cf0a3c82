-- ===== src/Server/Loops/Write.antt =====
-- `write_loop`. `cv_.wait` returns when the queue holds a response or the server is to stop; until
-- then the round does not end.
use waterproof_wrapper.Base.{ℕ, Bool, true, false, List, [], Option, none, some}
use waterproof_wrapper.Base.Maps.{subscript}
use waterproof_wrapper.Utils.Exceptions.{api_error, parse_error, json_error}
use waterproof_wrapper.Platform.{Api}
use waterproof_wrapper.Json.{Json}
use waterproof_wrapper.Message.{Response}
use waterproof_wrapper.Server.Queue.{pop}
use waterproof_wrapper.Server.Frame.{Outcome, done, closed, threw, stuck, write}
use waterproof_wrapper.Server.State.{Server, Effect, invalidate}
use waterproof_wrapper.Server.Loops.{Next}

-- An error of the socket is fatal for the client; another exception is not caught.
unfoldable pub after_write : ℕ → Server → Outcome (Unit {0}) → Next × Server × List Effect
after_write client s (done _) = (Next.again, s, [])
after_write client s (threw (api_error e)) =
    let (s', effects) = invalidate client s in (Next.again, s', effects)
after_write client s (threw parse_error) = (Next.aborts, s, [])
after_write client s (threw json_error) = (Next.aborts, s, [])
after_write client s closed = (Next.again, s, [])
after_write client s stuck = (Next.spins, s, [])

module _ (a : Api) (j : Json) where
  -- `client_map_[instance_id]` makes an entry with socket 0 for an id that is not mapped.
  unfoldable pub send_top :
      ℕ
      → Option (Response × List Response)
      → Server
      → a.World
      → (Next × Server × List Effect) × a.World
  unfolding after_write
  send_top fuel none s w = ((Next.spins, s, []), w)
  send_top fuel (some (response, queue)) s w =
      let (client, entries) = subscript response.instance_id 0 s.client_map in
      let (result, w') = write a j fuel client response w in
      (after_write client (record s { response_queue = queue; client_map = entries }) result, w')

  -- The test of `running_`.
  unfoldable pub write_if : Bool → ℕ → Server → a.World → (Next × Server × List Effect) × a.World
  unfolding send_top
  write_if true fuel s w = send_top fuel (pop s.response_queue) s w
  write_if false fuel s w = ((Next.leave, s, []), w)

  unfoldable pub write_round : ℕ → Server → a.World → (Next × Server × List Effect) × a.World
  unfolding write_if
  write_round fuel s w = write_if s.running fuel s w
