-- ===== src/Server/Queue.antt =====
-- The queue of responses of the server: a `std::priority_queue<response>`, which is a max-heap by
-- `operator<` of src/waterproof/message.cpp. The heap is the standard library's; the model keeps the
-- responses in a list and looks for the greatest.
pub mod Laws
pub mod Schedule
use waterproof_wrapper.Base.{Bool, true, false, List, [], ◌∷◌, Option, none, some, if◌then◌else◌}
use waterproof_wrapper.Message.{Response, response_lt}

-- `push`.
unfoldable pub push : Response → List Response → List Response
push r rs = r ∷ rs

-- The greatest of `best` and the list, and the others.
unfoldable pub greatest : Response → List Response → Response × List Response
greatest best [] = (best, [])
greatest best (r ∷ rs) =
    let (best', others) = greatest (if response_lt best r then r else best) rs in
    (best', (if response_lt best r then best else r) ∷ others)

-- `top` and `pop`: the greatest response, and the queue without it.
unfoldable pub pop : List Response → Option (Response × List Response)
unfolding greatest
pop [] = none
pop (r ∷ rs) = some (greatest r rs)
