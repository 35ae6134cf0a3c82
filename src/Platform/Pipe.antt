-- ===== src/Platform/Pipe.antt =====
-- A small platform that meets the assumptions on stream sockets: one connection, on which a call
-- moves three bytes at most.
use waterproof_wrapper.Base.{
  true, ℕ, zero, suc, ◌+◌, ◌≤◌, ◌<◌, refl, arith, List, [], ◌∷◌, ◌++◌, Text, pos, length, take,
  drop, take-append-drop, length-take_le,
}
use waterproof_wrapper.Platform.{Api, IsStream, IsReliable, received, sent, piped, in_parent}

pub record Connection : Type 0 where
  pub incoming : Text
  pub outgoing : Text
  pub next_fd : ℕ

abbrev at_most_three : ℕ → ℕ
at_most_three zero = 0
at_most_three (suc zero) = 1
at_most_three (suc (suc zero)) = 2
at_most_three (suc (suc (suc n))) = 3

abbrev pub pipe : Api
pipe = record {
  World = Connection;
  recv = λ s n w. (
    received (take (at_most_three n) w.incoming),
    record w { incoming = drop (at_most_three n) w.incoming },
  );
  send = λ s t w. (
    sent (at_most_three (length t)),
    record w { outgoing = w.outgoing ++ take (at_most_three (length t)) t },
  );
  read = λ fd n w. (
    received (take (at_most_three n) w.incoming),
    record w { incoming = drop (at_most_three n) w.incoming },
  );
  write = λ fd t w. (
    sent (at_most_three (length t)),
    record w { outgoing = w.outgoing ++ take (at_most_three (length t)) t },
  );
  pipe = λ w. (piped w.next_fd (w.next_fd + 1), record w { next_fd = w.next_fd + 2 });
  fork = λ w. (in_parent 1234, w);
  conn_reset = pos 104;
  format_socket = λ t s. t;
  format_code = λ t e. t;
  threads_end = λ id. true;
}

pub three_le : (n : ℕ) → at_most_three n ≤ n
three_le zero = omega arith
three_le (suc zero) = omega arith
three_le (suc (suc zero)) = omega arith
three_le (suc (suc (suc n))) = omega arith

pub three_pos : (n : ℕ) → 0 < n → 0 < at_most_three n
three_pos zero h = omega arith
three_pos (suc zero) h = omega arith
three_pos (suc (suc zero)) h = omega arith
three_pos (suc (suc (suc n))) h = omega arith

take_some : {A : Type 0} (n : ℕ) (xs : List A) → 0 < n → 0 < length xs → 0 < length (take n xs)
take_some zero xs p q = absurd (omega arith)
take_some (suc n) [] p q = absurd (omega arith)
take_some (suc n) (x ∷ xs) p q = omega arith

unfoldable pub pipe-IsStream : IsStream pipe
pipe-IsStream = record {
  inbox = λ s w. w.incoming;
  outbox = λ s w. w.outgoing;
  recv-inbox = λ s n w w' bytes h. (
    ground (arith, take-append-drop (at_most_three n) w.incoming),
    ground (arith, three_le n, length-take_le (at_most_three n) w.incoming),
  );
  recv_failed-inbox = λ s n w w' e h. ground arith;
  send-outbox = λ s t w w' n h. (ground arith, ground (arith, three_le (length t)));
  send_failed-outbox = λ s t w w' e h. ground arith;
}

pub pipe-IsReliable : (s : ℕ) → IsReliable pipe pipe-IsStream s
unfolding pipe-IsStream
pipe-IsReliable s = record {
  recv_some = λ n w p q. (_, _, refl, take_some _ _ (three_pos n p) q);
  send_some = λ t w p. (_, _, refl, three_pos _ p);
}
