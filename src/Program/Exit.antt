-- ===== src/Program/Exit.antt =====
-- How the program ends.
use waterproof_wrapper.Base.{
  ℕ, pos, ◌≡◌, refl, sym, subst, Bool, true, false, List, [], ◌∷◌, ◌++◌, Option, some, ◌&&◌, not,
  All,
}
use waterproof_wrapper.Platform.{Api}
use waterproof_wrapper.Json.{Json}
use waterproof_wrapper.Conductor.{Conductor, has_failed, notify, destroy}
use waterproof_wrapper.Conductor.Round.{stops, unless_failed, round}
use waterproof_wrapper.Program.{constructed, Pass, Exited, wait_loop, finish, main}

-- The loop goes on behind this pass.
abbrev pub goes_on : Pass → Bool
goes_on p = p.keep_running && not (has_failed p.conductor)

wait_loop-first :
    (front : List Pass) (p : Pass) (back : List Pass)
    → All (λ q. goes_on q ≡ true) front
    → goes_on p ≡ false
    → wait_loop (front ++ (p ∷ back)) ≡ some p.conductor
unfolding wait_loop
wait_loop-first [] p back h e = rw e refl
wait_loop-first (q ∷ front) p back h e = rw h.0 (wait_loop-first front p back h.1 e)

module _ (a : Api) (j : Json) where
  -- The program has ended with this code, its conductor's thread ends in its next round without
  -- handling anything, and no signal was logged.
  abbrev pub EndsQuietly : Conductor → Option Exited → Type 0
  EndsQuietly c o =
      (o ≡ some (record { code = pos 0; last = some (notify c); signal_logged = false }))
      × ((fuel : ℕ) (w : a.World) → (round a j fuel (notify c) w).0 ≡ (stops, notify c, []))

  notified-stops :
      (b : Bool) (c : Conductor) → c.server_failed ≡ b → EndsQuietly c (finish (some c))
  unfolding finish notify has_failed destroy round unless_failed
  notified-stops true c e = (rw e refl, λ fuel w. rw e refl)
  notified-stops false c e = (rw e refl, λ fuel w. rw e refl)

  -- In the first pass in which a signal has come or the conductor has failed, and not before, the
  -- program stops waiting, whatever later passes would bring: it exits with 0; the conductor has been
  -- notified, its destructor changes nothing more, and its thread ends in its next round without
  -- handling a request; and the program never logs that a signal came.
  pub main-EndsQuietly :
      (c : Conductor) (front back : List Pass) (p : Pass)
      → All (λ q. goes_on q ≡ true) front
      → goes_on p ≡ false
      → EndsQuietly p.conductor (main (constructed c) (front ++ (p ∷ back)))
  unfolding main
  main-EndsQuietly c front back p h e =
      subst (λ o. EndsQuietly p.conductor (finish o)) (sym (wait_loop-first front p back h e))
        (notified-stops p.conductor.server_failed p.conductor refl)
