-- ===== src/Worker/Posix/Loops/Stream.antt =====
-- The read loop of src/sertop/worker_posix.cpp as a whole, over rounds that read sertop's output, and
-- over rounds in which sertop has closed its end.
use waterproof_wrapper.Base.{
  ℕ, zero, suc, ◌-◌, ℤ, ◌≡◌, refl, sym, ap, ◌∙◌, arith, true, false, List, [], ◌∷◌, ◌++◌, Text,
  length, replicate, map, All,
}
use mathlib.Core.List.{map-append}
use waterproof_wrapper.Platform.{received}
use waterproof_wrapper.Worker.Parse.{count_nul, parse}
use waterproof_wrapper.Worker.Parse.Split.{parse_all, all_bytes, terminated, parse_all-terminated}
use waterproof_wrapper.Worker.Posix.{Worker, responded}
use waterproof_wrapper.Worker.Posix.Loops.{
  Next, Revents, ReadEvent, ready, buffer_size, Round, read_loop, read_round, after_round,
}

abbrev pub quiet : Revents
quiet = record { pollin = false; pollhup = false; pollerr = false }

abbrev pub readable : Revents
readable = record { pollin = true; pollhup = false; pollerr = false }

abbrev pub hung_up : Revents
hung_up = record { pollin = false; pollhup = true; pollerr = false }

-- Rounds that read these bytes of sertop's output, and nothing on the interrupt.
abbrev pub reads : List Text → List ReadEvent
reads [] = []
reads (bytes ∷ rest) = ready quiet readable (received bytes) ∷ reads rest

-- The buffers of such rounds: the bytes read, and the rest of the buffer.
abbrev pub buffers : List Text → List (Text × Text)
buffers [] = []
buffers (bytes ∷ rest) = (bytes, replicate (buffer_size - length bytes) 0) ∷ buffers rest

abbrev pub joined : List Text → Text
joined [] = []
joined (bytes ∷ rest) = bytes ++ joined rest

pub all_bytes-buffers : (pieces : List Text) → all_bytes (buffers pieces) ≡ joined pieces
all_bytes-buffers [] = refl
all_bytes-buffers (bytes ∷ rest) = ap (◌++◌ bytes) (all_bytes-buffers rest)

-- The round that gives these messages to the callbacks, and then waits.
abbrev pub delivered : Worker → List Text × Text → Round
delivered k (messages, rest) = (Next.waits, rest, k, map (responded k.id) messages)

module _ (format_code : Text → ℤ → Text) (k : Worker) (running : k.running ≡ true) where
  read_round-data :
      (bytes remainder : Text)
      → let r =
          parse (bytes ++ replicate (buffer_size - length bytes) 0) (length bytes) remainder in
        read_round format_code (ready quiet readable (received bytes)) remainder k
        ≡ (Next.again, r.1, k, map (responded k.id) r.0)
  unfolding read_round
  read_round-data bytes remainder = ground arith

  read_loop-parse_all :
      (remainder : Text) (pieces : List Text)
      → read_loop format_code (reads pieces) remainder k
        ≡ delivered k (parse_all remainder (buffers pieces))
  unfolding read_loop parse_all
  read_loop-parse_all remainder [] = refl
  read_loop-parse_all remainder (bytes ∷ rest) =
      let r = parse (bytes ++ replicate (buffer_size - length bytes) 0) (length bytes) remainder in
      let later = parse_all r.1 (buffers rest) in
      ap (after_round (read_loop format_code (reads rest))) (read_round-data bytes remainder)
      ∙ ap (λ (o : Round). (o.0, o.1, o.2, map (responded k.id) r.0 ++ o.3))
          (read_loop-parse_all r.1 rest)
      ∙ ap (λ es. (Next.waits, later.1, k, es)) (sym (map-append (responded k.id) r.0 later.0))

  -- Messages without null characters, each sent by sertop with a null character behind it, reach the
  -- callbacks of a running worker, each once and in order, however they are cut into reads; nothing
  -- is kept back, and the loop goes on.
  pub read_loop-terminated :
      (messages pieces : List Text)
      → All (λ m. count_nul m ≡ 0) messages
      → joined pieces ≡ terminated messages
      → read_loop format_code (reads pieces) [] k
        ≡ (Next.waits, [], k, map (responded k.id) messages)
  read_loop-terminated messages pieces h e =
      read_loop-parse_all [] pieces
      ∙ ap (delivered k)
          (parse_all-terminated messages (buffers pieces) h (all_bytes-buffers pieces ∙ e))

  read_round-hung_up :
      (remainder : Text)
      → read_round format_code (ready quiet hung_up (received [])) remainder k
        ≡ (Next.again, remainder, k, [])
  unfolding read_round
  read_round-hung_up remainder = ground arith

  -- Rounds in which `poll` says that sertop's end of the pipe is closed, and no more, leave a running
  -- worker as it is, report nothing, and the loop goes on: any number of them.
  pub read_loop-hung_up :
      (n : ℕ) (remainder : Text)
      → read_loop format_code (replicate n (ready quiet hung_up (received []))) remainder k
        ≡ (Next.waits, remainder, k, [])
  unfolding read_loop
  read_loop-hung_up zero remainder = refl
  read_loop-hung_up (suc n) remainder =
      ap (after_round (read_loop format_code (replicate n (ready quiet hung_up (received [])))))
        (read_round-hung_up remainder)
      ∙ ap (λ (o : Round). (o.0, o.1, o.2, [] ++ o.3)) (read_loop-hung_up n remainder)
