-- ===== src/Server/State.antt =====
-- The members of `server` and its operations on them: src/waterproof/server.h and server.cpp. Each
-- operation runs under the mutex of the members that it touches, so it is one step of the model. What
-- it does outside the members, in order, is a list of effects; logging is left out.
pub mod Invalidate
pub mod Unmap
use waterproof_wrapper.Base.{
  ℕ, ◌+◌, Bool, true, false, List, [], ◌∷◌, ◌++◌, Option, none, some, if◌then◌else◌, ◌==◌,
}
use waterproof_wrapper.Base.Maps.{subscript, insert, erase}
use waterproof_wrapper.Utils.Exceptions.{ApiError, Thrown, api_error, parse_error, json_error}
use waterproof_wrapper.Platform.{Api}
use waterproof_wrapper.Json.{Json}
use waterproof_wrapper.Message.{Request, Response}
use waterproof_wrapper.Server.Queue.{push}
use waterproof_wrapper.Server.Frame.{Outcome, done, closed, threw, stuck, write}

-- `client_map_` takes an instance id to a socket. Its keys are `int`; an id that fits 31 bits is
-- the key that it is.
pub record Server : Type 0 where
  pub running : Bool
  pub next_id : ℕ
  pub listen_socket : ℕ
  pub interrupt_read : ℕ
  pub interrupt_write : ℕ
  pub response_queue : List Response
  pub client_map : List (ℕ × ℕ)
  pub clients : List ℕ
  pub new_clients : List ℕ

-- What the server does beside changing its members; `woke` is a character sent to the interrupt.
-- `invalidated none` is a call of the `on_invalidate` callbacks with an id that is read through the end of
-- the map, which is undefined: it may be any id, the erased one as well.
pub data Effect : Type 0 where
  notify : Effect
  woke : Effect
  close : ℕ → Effect
  failed : ApiError → Effect
  requested : Request → Effect
  invalidated : Option ℕ → Effect

-- `close_all`.
unfoldable pub close_all : List ℕ → List Effect
close_all [] = []
close_all (fd ∷ fds) = close fd ∷ close_all fds

unfoldable pub enqueue : Response → Server → Server × List Effect
unfolding push
enqueue response s = (record s { response_queue = push response s.response_queue }, notify ∷ [])

-- `running_` is cleared, the write loop is woken, the interrupt is closed, the subscribers are told.
unfoldable pub fail : ApiError → Server → Server × List Effect
unfolding close_all
fail error s = (
  record s { running = false },
  notify ∷ (close_all (s.interrupt_read ∷ []) ++ (failed error ∷ [])),
)

-- `std::find` and `erase`: the first occurrence goes.
unfoldable pub remove_client : ℕ → List ℕ → List ℕ
remove_client client [] = []
remove_client client (c ∷ cs) = if c == client then cs else c ∷ remove_client client cs

-- The id that an iterator shows, `none` at the end.
abbrev pub first_id : List (ℕ × ℕ) → Option ℕ
first_id [] = none
first_id ((id, c) ∷ m) = some id

-- The loop over `client_map_`: `it = client_map_.erase(it)` moves on to the entry behind the erased
-- one before the callbacks are given `it->first`, which is undefined where no entry is behind it.
unfoldable pub invalidate_loop : ℕ → List (ℕ × ℕ) → List (ℕ × ℕ) × List Effect
invalidate_loop client [] = ([], [])
invalidate_loop client ((id, c) ∷ m) =
    let (kept, effects) = invalidate_loop client m in
    if c == client then (kept, invalidated (first_id m) ∷ effects) else ((id, c) ∷ kept, effects)

unfoldable pub invalidate : ℕ → Server → Server × List Effect
unfolding remove_client invalidate_loop close_all
invalidate client s =
    let (kept, effects) = invalidate_loop client s.client_map in
    (
      record s { clients = remove_client client s.clients; client_map = kept },
      effects ++ close_all (client ∷ []),
    )

-- `unmap` ignores an `api_error`; another exception leaves it before the entry is erased.
unfoldable pub after_farewell :
    {W : Type 0} → ℕ → Server → Outcome (Unit {0}) → W → Outcome (Unit {0}) × Server × W
after_farewell id s (done _) w = (done tt, record s { client_map = erase id s.client_map }, w)
after_farewell id s (threw (api_error e)) w =
    (done tt, record s { client_map = erase id s.client_map }, w)
after_farewell id s (threw parse_error) w = (threw parse_error, s, w)
after_farewell id s (threw json_error) w = (threw json_error, s, w)
after_farewell id s closed w = (closed, s, w)
after_farewell id s stuck w = (stuck, s, w)

module _ (a : Api) (j : Json) where
  -- `client_map_[id]` makes an entry with socket 0 for an id that is not mapped.
  unfoldable pub unmap : ℕ → ℕ → Response → Server → a.World → Outcome (Unit {0}) × Server × a.World
  unfolding after_farewell subscript erase write
  unmap fuel id response s w =
      let (client, entries) = subscript id 0 s.client_map in
      let (result, w') = write a j fuel client response w in
      after_farewell id (record s { client_map = entries }) result w'
