-- ===== src/System/Input/Takes.antt =====
-- The read thread takes a request of one client between others.
use waterproof_wrapper.Base.{
  ℕ, ◌≡◌, refl, ap, ◌∙◌, List, [], ◌∷◌, ◌++◌, Option, none, some, Text, length, replicate,
}
use waterproof_wrapper.Platform.{Api}
use waterproof_wrapper.Json.{Json}
use waterproof_wrapper.Message.{Request, Response}
use waterproof_wrapper.Server.Frame.{Outcome, done, read}
use waterproof_wrapper.Server.State.{Server, requested}
use waterproof_wrapper.Server.Loops.{Next}
use waterproof_wrapper.Server.Loops.Read.{
  Round, take_request, take_verb, after_read, serve_client, serve, after_serve, serve_all,
  invalidate_all, clean_up, read_polled, read_round,
}
use waterproof_wrapper.Conductor.{Conductor, on_request}
use waterproof_wrapper.System.{reads, deliver, after_thread, resume, move}
use waterproof_wrapper.System.Input.{a_forward, quiet, readable, can_read, going, waiting_for}

-- The pass over the clients, with others in front.
abbrev behind : {W : Type 0} → List (Option ℕ) → Round × W → Round × W
behind before o = ((o.0.0, before ++ o.0.1, o.0.2, o.0.3, o.0.4), o.1)

module _ (a : Api) (j : Json) where
  serve_all-nothing :
      (cs : List (Option ℕ)) (s : Server) (w : a.World)
      → serve_all a j [] cs s w ≡ ((Next.again, cs, [], s, []), w)
  unfolding serve_all
  serve_all-nothing [] s w = refl
  serve_all-nothing (c ∷ cs) s w = refl

  serve_all-quiet :
      (before : List (Option ℕ)) (events : List _) (cs : List (Option ℕ)) (s : Server) (w : a.World)
      → serve_all a j (replicate (length before) quiet ++ events) (before ++ cs) s w
        ≡ behind before (serve_all a j events cs s w)
  unfolding serve_all serve serve_client after_serve
  serve_all-quiet [] events cs s w = refl
  serve_all-quiet (none ∷ before) events cs s w =
      ap (behind (none ∷ [])) (serve_all-quiet before events cs s w)
  serve_all-quiet (some c ∷ before) events cs s w =
      ap (behind (some c ∷ [])) (serve_all-quiet before events cs s w)

  -- One request that is read in the pass.
  serve_all-reads :
      (before after : List (Option ℕ)) (client id : ℕ) (text : Text) (s : Server) (w w' : a.World)
      → read a j client w ≡ (done (a_forward id text), w')
      → serve_all a j
          (replicate (length before) quiet ++ (readable ∷ []))
          (before ++ (some client ∷ after))
          s
          w
        ≡ (
          (Next.again, before ++ (some client ∷ after), [], s, requested (a_forward id text) ∷ []),
          w',
        )
  unfolding serve_all serve serve_client after_serve after_read take_request take_verb
  serve_all-reads before after client id text s w w' e =
      serve_all-quiet before (readable ∷ []) (some client ∷ after) s w
      ∙ ap
          (λ (o : Outcome Request × a.World). behind before (
            after_serve a j (some client) after (after_read client o.0 s, o.1)
              (serve_all a j [] after)))
          e
      ∙ ap
          (λ (o : Round × a.World). behind before (
            (o.0.0, some client ∷ o.0.1, o.0.2, o.0.3, requested (a_forward id text) ∷ o.0.4),
            o.1,
          ))
          (serve_all-nothing after s w')

  pub move-reads :
      (before after : List (Option ℕ)) (client id fuel : ℕ) (text : Text) (sent : List Response)
      (c : Conductor) (rs : List Request) (w w' : a.World)
      → read a j client w ≡ (done (a_forward id text), w')
      → move a j
          (reads fuel (can_read (length before)))
          (waiting_for before client after sent c rs w)
        ≡ some (waiting_for before client after sent c (rs ++ (a_forward id text ∷ [])) w')
  unfolding move read_round read_polled invalidate_all resume after_thread deliver on_request
  move-reads before after client id fuel text sent c rs w w' e =
      let s = (going c rs).server in
      ap
        (λ (o : Round × a.World).
          let ((next, watched, server, es), v) = clean_up a j o in
          resume watched v sent (after_thread a next server es (going c rs)))
        (serve_all-reads before after client id text s w w' e)
