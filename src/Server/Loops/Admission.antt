-- ===== src/Server/Loops/Admission.antt =====
-- What a round of the accept thread does with a new client.
use waterproof_wrapper.Base.{
  ℕ, zero, suc, ℤ, ◌≡◌, refl, arith, true, false, List, [], ◌∷◌, ◌++◌, Text, replicate,
}
use waterproof_wrapper.Platform.{Sent, sent}
use waterproof_wrapper.Server.State.{Server, woke}
use waterproof_wrapper.Server.Loops.{Next, Revents}
use waterproof_wrapper.Server.Loops.Accept.{
  accepted, ready, wake, admit, accept_polled, accept_round,
}

module _ (format_code : Text → ℤ → Text) where
  wake_retries :
      (n k : ℕ) (later : List Sent) (s : Server)
      → wake format_code (replicate n (sent 0) ++ (sent (suc k) ∷ later)) s
        ≡ (Next.again, s, woke ∷ [])
  unfolding wake
  wake_retries zero k later s = refl
  wake_retries (suc n) k later s = wake_retries n k later s

  -- When a running server that is not interrupted accepts a client, the client is put behind the
  -- others in both client lists, the read thread is woken once, however often the send to the
  -- interrupt takes nothing before it takes a byte, and the loop goes on; nothing else changes.
  pub accept_round-admits :
      (interrupt listen : Revents) (client n k : ℕ) (later : List Sent) (s : Server)
      → s.running ≡ true
      → interrupt.gone ≡ false
      → listen.readable ≡ true
      → accept_round format_code
          (ready interrupt listen
            (accepted client)
            (replicate n (sent 0) ++ (sent (suc k) ∷ later)))
          s
        ≡ (
          Next.again,
          record s {
            clients = s.clients ++ (client ∷ []);
            new_clients = s.new_clients ++ (client ∷ []);
          },
          woke ∷ [],
        )
  unfolding accept_round accept_polled admit
  accept_round-admits interrupt listen client n k later s run open' ready' = ground (
    arith,
    wake_retries n k later (record s {
      clients = s.clients ++ (client ∷ []);
      new_clients = s.new_clients ++ (client ∷ []);
    }),
  )
