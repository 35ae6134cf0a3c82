-- ===== src/Server/Frame/Write.antt =====
-- What `write` hands on to a stream, whatever the calls of the platform come to.
use waterproof_wrapper.Base.{
  ℕ, zero, suc, ◌+◌, ◌-◌, ◌%◌, ◌^◌, ◌≤◌, ◌≡◌, refl, sym, ap, ◌∙◌, arith, List, [], ◌∷◌, ◌++◌,
  append_assoc, append-nil, none, some, Text, length, take, drop, length-append, length-take,
  length-take_le, take_in_two, take-take, take_all, take-append, drop-append, ◌≢◌, ◌⊎◌, inl, inr,
  length-drop,
}
use waterproof_wrapper.Utils.Buffers.RoundTrip.{big_endian, write_header}
use waterproof_wrapper.Platform.{Api, IsStream, IsReliable, Sent, sent, send_failed}
use waterproof_wrapper.Utils.Exceptions.{json_error}
use waterproof_wrapper.Json.{Json}
use waterproof_wrapper.Message.{Response, response_to_json}
use waterproof_wrapper.Server.Frame.{
  Outcome, done, closed, threw, stuck, at_most_buffer, whole, after_send, send_loop, write,
  write_raw, then_do,
}
use waterproof_wrapper.Server.Frame.Read.{IsSize, whole-IsSize, at_most_buffer-IsSize}
use waterproof_wrapper.Server.Frame.RoundTrip.{frame, IsShort, int_length}

whole_or_not : {P : Type 0} (o : Outcome (Unit {0})) → (o ≡ done tt → P) → P ⊎ (o ≢ done tt)
whole_or_not (done tt) f = inl (f refl)
whole_or_not closed f = inr λ e. cc
whole_or_not (threw t) f = inr λ e. cc
whole_or_not stuck f = inr λ e. cc

take_sum : {A : Type 0} (k m : ℕ) (xs : List A) → take (k + m) xs ≡ take k xs ++ take m (drop k xs)
take_sum k m xs =
    let e : k + m - k ≡ m = omega arith in take_in_two k (k + m) xs (omega arith) ∙ rw e

take_front : {A : Type 0} (k : ℕ) (xs ys : List A) → k ≤ length xs → take k (xs ++ ys) ≡ take k xs
take_front zero xs ys h = refl
take_front (suc k) [] ys h = absurd (omega arith)
take_front (suc k) (x ∷ xs) ys h = ap (◌∷◌ x) (take_front k xs ys (omega arith))

take_past :
    {A : Type 0} (xs ys : List A) (k : ℕ) → take (length xs + k) (xs ++ ys) ≡ xs ++ take k ys
take_past xs ys k = take_sum (length xs) k (xs ++ ys) ∙ rw (take-append xs ys, drop-append xs ys)

module _ (a : Api) (stream : IsStream a) (client : ℕ) where
  open a use {World, send}
  open stream use {outbox, send-outbox, send_failed-outbox}

  -- What a loop over the `n` bytes at the front of `bytes` came to: a front part of them, of `k` bytes,
  -- was handed on, and all of them if the loop ended without an error.
  pub record Wrote (n : ℕ) (bytes : Text) (w : World) (o : Outcome (Unit {0}) × World)
      : Type 0 where
    pub count : ℕ
    pub count_le : count ≤ n
    pub handed_on : outbox client o.1 ≡ outbox client w ++ take count bytes
    pub complete : o.0 ≡ done tt → count ≡ n

  after_send-Wrote :
      (size n : ℕ) (bytes : Text) (next : ℕ → Text → World → Outcome (Unit {0}) × World) (w : World)
      (r : Sent) (w' : World)
      → send client (take size bytes) w ≡ (r, w')
      → size ≤ n
      → ((k : ℕ) → Wrote (n - k) (drop k bytes) w' (next (n - k) (drop k bytes) w'))
      → Wrote n bytes w (after_send a client n bytes next r w')
  unfolding after_send
  after_send-Wrote size n bytes next w (sent k) w' e h later =
      let (out, fits) = send-outbox client (take size bytes) w w' k e in
      let small : k ≤ size = omega (arith, length-take_le size bytes) in
      let rest = later k in
      record {
        count = k + rest.count;
        count_le = omega (arith, rest.count_le);
        handed_on =
            rest.handed_on
            ∙ ap (λ t. t ++ take rest.count (drop k bytes))
                (out ∙ ap (◌++◌ (outbox client w)) (take-take k size bytes small))
            ∙ append_assoc (outbox client w) (take k bytes) (take rest.count (drop k bytes))
            ∙ ap (◌++◌ (outbox client w)) (sym (take_sum k rest.count bytes));
        complete = λ p. omega (arith, rest.complete p);
      }
  after_send-Wrote size n bytes next w (send_failed x) w' e h later = record {
    count = 0;
    count_le = omega arith;
    handed_on =
        send_failed-outbox client (take size bytes) w w' x e ∙ sym (append-nil (outbox client w));
    complete = λ p. cc;
  }

  send_loop-Wrote :
      (fuel : ℕ) (size : ℕ → ℕ) (n : ℕ) (bytes : Text) (w : World)
      → IsSize size
      → Wrote n bytes w (send_loop a fuel size client n bytes w)
  unfolding send_loop
  send_loop-Wrote zero size zero bytes w h = record {
    count = 0;
    count_le = omega arith;
    handed_on = sym (append-nil (outbox client w));
    complete = λ p. refl;
  }
  send_loop-Wrote (suc fuel) size zero bytes w h = record {
    count = 0;
    count_le = omega arith;
    handed_on = sym (append-nil (outbox client w));
    complete = λ p. refl;
  }
  send_loop-Wrote zero size (suc n) bytes w h = record {
    count = 0;
    count_le = omega arith;
    handed_on = sym (append-nil (outbox client w));
    complete = λ p. cc;
  }
  send_loop-Wrote (suc fuel) size (suc n) bytes w h =
      after_send-Wrote (size (suc n)) (suc n) bytes (send_loop a fuel size client) w _ _ refl
        (h (suc n) (omega arith)).1
        (λ k.
          send_loop-Wrote fuel size (suc n - k) (drop k bytes)
            (send client (take (size (suc n)) bytes) w).1 h)

  stopped :
      (bytes more : Text) (w : World) (o : Outcome (Unit {0}) × World)
      → o.0 ≢ done tt
      → Wrote (length bytes) bytes w o
      → Wrote (length (bytes ++ more)) (bytes ++ more) w o
  stopped bytes more w o h first = record {
    count = first.count;
    count_le = omega (arith, first.count_le, length-append bytes more);
    handed_on =
        first.handed_on
        ∙ ap (◌++◌ (outbox client w)) (sym (take_front first.count bytes more first.count_le));
    complete = λ p. absurd (h p);
  }

  -- The two loops of `write` one after the other.
  Wrote-append :
      (bytes more : Text) (w : World) (o : Outcome (Unit {0})) (w' : World)
      (f : World → Outcome (Unit {0}) × World)
      → Wrote (length bytes) bytes w (o, w')
      → Wrote (length more) more w' (f w')
      → Wrote (length (bytes ++ more)) (bytes ++ more) w (then_do o w' (λ _. f))
  Wrote-append bytes more w (done tt) w' f first second =
      let all : take first.count bytes ≡ bytes =
        take_all first.count bytes (omega (arith, first.complete refl)) in
      record {
        count = length bytes + second.count;
        count_le = omega (arith, second.count_le, length-append bytes more);
        handed_on =
            second.handed_on
            ∙ ap (λ t. t ++ take second.count more)
                (first.handed_on ∙ ap (◌++◌ (outbox client w)) all)
            ∙ append_assoc (outbox client w) bytes (take second.count more)
            ∙ ap (◌++◌ (outbox client w)) (sym (take_past bytes more second.count));
        complete = λ p. omega (arith, second.complete p, length-append bytes more);
      }
  Wrote-append bytes more w closed w' f first second =
      stopped bytes more w (closed, w') (λ p. cc) first
  Wrote-append bytes more w (threw e) w' f first second =
      stopped bytes more w (threw e, w') (λ p. cc) first
  Wrote-append bytes more w stuck w' f first second =
      stopped bytes more w (stuck, w') (λ p. cc) first

  -- Whatever the calls of the platform come to, `write` hands on a front part of the message and
  -- nothing else, and the whole message if it ends without an error. The text must be shorter than
  -- 2 ^ 31 bytes.
  pub write_raw-Wrote :
      (fuel : ℕ) (raw : Text) (w : World)
      → IsShort raw
      → Wrote (length (frame raw)) (frame raw) w (write_raw a fuel client raw w)
  unfolding write_raw
  write_raw-Wrote fuel raw w h =
      let size : length raw % 2 ^ 32 ≡ length raw = omega arith in
      rw (size, write_header (length raw), int_length (length raw) h)
        (Wrote-append (big_endian (length raw)) raw w _ _
          (send_loop a fuel at_most_buffer client (length raw) raw)
          (send_loop-Wrote fuel whole 4 (big_endian (length raw)) w whole-IsSize)
          (send_loop-Wrote fuel at_most_buffer (length raw) raw _ at_most_buffer-IsSize))

  module _ (reliable : IsReliable a stream client) where
    open reliable use {send_some}

    send_loop_ends :
        (fuel : ℕ) (size : ℕ → ℕ) (n : ℕ) (bytes : Text) (w : World)
        → IsSize size
        → n ≤ fuel
        → n ≤ length bytes
        → (send_loop a fuel size client n bytes w).0 ≡ done tt
    unfolding send_loop after_send
    send_loop_ends zero size zero bytes w h p q = refl
    send_loop_ends (suc fuel) size zero bytes w h p q = refl
    send_loop_ends zero size (suc n) bytes w h p q = absurd (omega arith)
    send_loop_ends (suc fuel) size (suc n) bytes w h p q =
        let (asked, fits) = h (suc n) (omega arith) in
        let (k, w', e, some_sent) =
          send_some (take (size (suc n)) bytes) w
            (omega (arith, length-take (size (suc n)) bytes)) in
        let (_, small) = send-outbox client (take (size (suc n)) bytes) w w' k e in
        rw e (
          send_loop_ends fuel size (suc n - k) (drop k bytes) w' h (omega arith)
            (omega (arith, length-drop k bytes, length-take_le (size (suc n)) bytes)))

    write_raw_ends :
        (fuel : ℕ) (raw : Text) (w : World)
        → IsShort raw
        → 4 ≤ fuel
        → length raw ≤ fuel
        → (write_raw a fuel client raw w).0 ≡ done tt
    unfolding write_raw
    write_raw_ends fuel raw w h p q =
        let size : length raw % 2 ^ 32 ≡ length raw = omega arith in
        rw (size, write_header (length raw), int_length (length raw) h)
          (rw (send_loop_ends fuel whole 4 (big_endian (length raw)) w whole-IsSize p (omega arith))
            (send_loop_ends fuel at_most_buffer (length raw) raw _ at_most_buffer-IsSize q
              (omega arith)))

  module _ (j : Json) where
    -- On a stream socket, whatever the calls of the platform come to, `write` hands on a front part
    -- of the message and nothing else, and the whole message if it ends without an error. The response must have a JSON
    -- text, shorter than 2 ^ 31 bytes.
    pub write_front :
        (fuel : ℕ) (r : Response) (raw : Text) (w : World)
        → j.dump (response_to_json j r) ≡ some raw
        → IsShort raw
        → (k : ℕ) × (k ≤ length (frame raw))
          × (outbox client (write a j fuel client r w).1 ≡ outbox client w ++ take k (frame raw))
          × ((k ≡ length (frame raw)) ⊎ ((write a j fuel client r w).0 ≢ done tt))
    unfolding write
    write_front fuel r raw w e h =
        let wrote = write_raw-Wrote fuel raw w h in
        rw e (wrote.count, wrote.count_le, wrote.handed_on, whole_or_not _ wrote.complete)

    -- On a socket on which no call fails, `write` ends without an error and hands on the message and
    -- nothing else, if its loops may run as often as the message has bytes: more rounds are not needed.
    -- The response must have a JSON text, shorter than 2 ^ 31 bytes.
    pub write-frame :
        IsReliable a stream client
        → (fuel : ℕ) (r : Response) (raw : Text) (w : World)
        → j.dump (response_to_json j r) ≡ some raw
        → IsShort raw
        → length (frame raw) ≤ fuel
        → ((write a j fuel client r w).0 ≡ done tt)
          × (outbox client (write a j fuel client r w).1 ≡ outbox client w ++ frame raw)
    unfolding write
    write-frame reliable fuel r raw w e h p =
        let ends = write_raw_ends reliable fuel raw w h (omega arith) (omega arith) in
        let wrote = write_raw-Wrote fuel raw w h in
        let all = take_all wrote.count (frame raw) (omega (arith, wrote.complete ends)) in
        rw e (ends, wrote.handed_on ∙ ap (◌++◌ (outbox client w)) all)

    -- A response that has no JSON text is an exception, and nothing is handed on.
    write_without_text :
        (fuel : ℕ) (r : Response) (w : World)
        → j.dump (response_to_json j r) ≡ none
        → write a j fuel client r w ≡ (threw json_error, w)
    unfolding write
    write_without_text fuel r w e = rw e
