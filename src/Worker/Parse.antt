-- ===== src/Worker/Parse.antt =====
-- `worker::parse` of src/sertop/worker.cpp. Sertop ends each message by a null character; a buffer may
-- hold several messages, and the front of one that is not complete. Lengths are taken to stay below
-- 2 ^ 31, so that the `int` counters of the source do not overflow.
pub mod Split
use waterproof_wrapper.Base.{
  ℕ, zero, suc, ◌+◌, ◌-◌, Bool, true, false, List, [], ◌∷◌, ◌++◌, Text, if◌then◌else◌, ltb, ◌==◌,
  length, take, drop,
}

-- `std::count(…, '\0')`.
unfoldable pub count_nul : Text → ℕ
count_nul [] = 0
count_nul (b ∷ t) = if b == 0 then suc (count_nul t) else count_nul t

-- `std::string(ptr)`: the characters up to the first null character. The text that `ptr` points into
-- has one behind its end.
pub c_string : Text → Text
c_string [] = []
c_string (b ∷ t) = if b == 0 then [] else b ∷ c_string t

-- The loop that takes `count` messages off the front of `ptr`; `read` counts the characters that are
-- left. It gives the messages, and the last values of `ptr` and `read`.
pub take_messages : ℕ → Text → ℕ → List Text × Text × ℕ
unfolding c_string
take_messages zero ptr read = ([], ptr, read)
take_messages (suc i) ptr read =
    let message = c_string ptr in
    let (messages, ptr', read') =
      take_messages i (drop (length message + 1) ptr) (read - (length message + 1)) in
    (message ∷ messages, ptr', read')

-- The messages on which the callbacks are executed, in order, and the text that is returned.
unfoldable pub parse : Text → ℕ → Text → List Text × Text
unfolding count_nul take_messages
parse buffer read prefix =
    let raw_result = prefix ++ take read buffer in
    let count = count_nul raw_result in
    let (result, ptr, left) = take_messages count raw_result (read + length prefix) in
    if ltb 0 count then (result, if left == 0 then [] else take left ptr) else ([], raw_result)
