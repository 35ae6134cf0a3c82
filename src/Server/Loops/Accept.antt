-- ===== src/Server/Loops/Accept.antt =====
-- `accept_loop`.
use waterproof_wrapper.Base.{ℕ, zero, suc, ℤ, List, [], ◌∷◌, ◌++◌, codes, Text, if◌then◌else◌}
use waterproof_wrapper.Utils.Exceptions.{coded_error}
use waterproof_wrapper.Platform.{Sent, sent, send_failed}
use waterproof_wrapper.Server.State.{Server, Effect, woke, fail}
use waterproof_wrapper.Server.Loops.{Next, Revents}

pub data Accepted : Type 0 where
  accepted : ℕ → Accepted
  accept_failed : ℤ → Accepted

-- What the platform gives in a round: the result of `poll`, with what it says of the interrupt and of
-- the listening socket; the result of `accept`; and the results of the sends to the interrupt.
pub data AcceptEvent : Type 0 where
  poll_failed : ℤ → AcceptEvent
  none_ready : AcceptEvent
  ready : Revents → Revents → Accepted → List Sent → AcceptEvent

module _ (format_code : Text → ℤ → Text) where
  abbrev pub leave_with : Text → ℤ → Server → Next × Server × List Effect
  leave_with message e s =
      let (s', effects) = fail (coded_error format_code message e) s in (Next.leave, s', effects)

  -- `while (written == 0)`: a send that takes nothing is tried again. After an error the inner loop
  -- is left, and the outer one goes on.
  unfoldable pub wake : List Sent → Server → Next × Server × List Effect
  wake [] s = (Next.spins, s, [])
  wake (sent zero ∷ sends) s = wake sends s
  wake (sent (suc n) ∷ sends) s = (Next.again, s, woke ∷ [])
  wake (send_failed e ∷ sends) s =
      let (s', effects) =
        fail (coded_error format_code (codes "unable to write to interrupt pipe") e) s in
      (Next.again, s', effects)

  unfoldable pub admit : Accepted → List Sent → Server → Next × Server × List Effect
  unfolding wake
  admit (accept_failed e) sends s = leave_with (codes "unable to accept a new client") e s
  admit (accepted client) sends s = wake sends (record s {
    clients = s.clients ++ (client ∷ []);
    new_clients = s.new_clients ++ (client ∷ []);
  })

  unfoldable pub accept_polled : AcceptEvent → Server → Next × Server × List Effect
  unfolding admit
  accept_polled (poll_failed e) s = leave_with (codes "unable to wait on interrupt/accept fds") e s
  accept_polled none_ready s = (Next.again, s, [])
  accept_polled (ready interrupt listen client sends) s =
      if interrupt.gone
      then (Next.leave, s, [])
      else if listen.readable
      then admit client sends s
      else (Next.again, s, [])

  unfoldable pub accept_round : AcceptEvent → Server → Next × Server × List Effect
  unfolding accept_polled
  accept_round event s = if s.running then accept_polled event s else (Next.leave, s, [])
