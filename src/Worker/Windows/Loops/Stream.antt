-- ===== src/Worker/Windows/Loops/Stream.antt =====
-- The read loop of the Windows worker as a whole, over rounds that read sertop's output.
use waterproof_wrapper.Base.{
  ◌-◌, ℤ, ◌≡◌, refl, sym, ap, ◌∙◌, Bool, true, false, List, [], ◌∷◌, ◌++◌, Text, length, replicate,
  map, All, int_eq_refl,
}
use mathlib.Core.List.{map-append}
use waterproof_wrapper.Platform.{received}
use waterproof_wrapper.Platform.Setup.{Called, call_ok, call_failed}
use waterproof_wrapper.Worker.Parse.{count_nul, parse}
use waterproof_wrapper.Worker.Parse.Split.{parse_all, terminated, parse_all-terminated}
use waterproof_wrapper.Worker.Posix.Loops.{Next, buffer_size}
use waterproof_wrapper.Worker.Posix.Loops.Stream.{all_bytes-buffers, buffers, joined}
use waterproof_wrapper.Worker.Windows.{Worker, responded}
use waterproof_wrapper.Worker.Windows.Loops.{
  ReadEvent, read_ended, Round, read_loop, read_round, after_round,
}

-- The start of a read that is over at once, or is pending.
abbrev pub begun_as : ℤ → Bool → Called
begun_as io_pending true = call_failed io_pending
begun_as io_pending false = call_ok

-- Rounds that read these bytes of sertop's output; each read is pending or not.
abbrev pub reads : ℤ → List (Bool × Text) → List ReadEvent
reads io_pending [] = []
reads io_pending ((pending, bytes) ∷ rest) =
    record { begun = begun_as io_pending pending; signal = read_ended (received bytes) call_ok }
    ∷ reads io_pending rest

abbrev pub bytes_of : List (Bool × Text) → List Text
bytes_of [] = []
bytes_of ((pending, bytes) ∷ rest) = bytes ∷ bytes_of rest

-- The round that gives these messages to the callbacks, and then waits.
abbrev pub delivered : Worker → List Text × Text → Round
delivered k (messages, rest) = (Next.waits, rest, k, map (responded k.id) messages)

module _ (format_code : Text → ℤ → Text) (io_pending : ℤ) (k : Worker)
    (running : k.running ≡ true) where
  read_round-data :
      (pending : Bool) (bytes remainder : Text)
      → let r =
          parse (bytes ++ replicate (buffer_size - length bytes) 0) (length bytes) remainder in
        read_round format_code io_pending
          (record {
            begun = begun_as io_pending pending;
            signal = read_ended (received bytes) call_ok;
          })
          remainder
          k
        ≡ (Next.again, r.1, k, map (responded k.id) r.0)
  unfolding read_round
  read_round-data true bytes remainder = rw (running, int_eq_refl io_pending) refl
  read_round-data false bytes remainder = rw running refl

  read_loop-parse_all :
      (remainder : Text) (pieces : List (Bool × Text))
      → read_loop format_code io_pending (reads io_pending pieces) remainder k
        ≡ delivered k (parse_all remainder (buffers (bytes_of pieces)))
  unfolding read_loop parse_all
  read_loop-parse_all remainder [] = rw running refl
  read_loop-parse_all remainder ((pending, bytes) ∷ rest) =
      let r = parse (bytes ++ replicate (buffer_size - length bytes) 0) (length bytes) remainder in
      let later = parse_all r.1 (buffers (bytes_of rest)) in
      ap (after_round (read_loop format_code io_pending (reads io_pending rest)))
        (read_round-data pending bytes remainder)
      ∙ ap (λ (o : Round). (o.0, o.1, o.2, map (responded k.id) r.0 ++ o.3))
          (read_loop-parse_all r.1 rest)
      ∙ ap (λ es. (Next.waits, later.1, k, es)) (sym (map-append (responded k.id) r.0 later.0))

  -- Messages without null characters, each sent by sertop with a null character behind it, reach the
  -- callbacks of a running worker, each once and in order, however they are cut into reads and
  -- whichever of the reads are pending at first; nothing is kept back, and the loop goes on.
  pub overlapped_loop-terminated :
      (messages : List Text) (pieces : List (Bool × Text))
      → All (λ m. count_nul m ≡ 0) messages
      → joined (bytes_of pieces) ≡ terminated messages
      → read_loop format_code io_pending (reads io_pending pieces) [] k
        ≡ (Next.waits, [], k, map (responded k.id) messages)
  overlapped_loop-terminated messages pieces h e =
      read_loop-parse_all [] pieces
      ∙ ap (delivered k) (
          parse_all-terminated messages (buffers (bytes_of pieces)) h
            (all_bytes-buffers (bytes_of pieces) ∙ e))
