-- ===== src/Worker/Parse/Split.antt =====
-- `parse` against the split of a text at its null characters.
use waterproof_wrapper.Base.{
  ℕ, zero, suc, ◌+◌, ◌-◌, ◌≤◌, ◌≡◌, ◌≢◌, refl, sym, ap, ◌∙◌, arith, true, false, List, [], ◌∷◌,
  ◌++◌, append-nil, append_assoc, Text, if◌then◌else◌, ltb, ◌==◌, length, take, All, Bool-cases,
  inl, inr, take_all, take-append, length-append, length-take,
}
use native.Mathlib.Nat.{suc-sub-suc}
use waterproof_wrapper.Worker.Parse.{count_nul, c_string, take_messages, parse}

-- A character before what a text splits into.
abbrev pub before : ℕ → List Text × Text → List Text × Text
before b ([], rest) = ([], b ∷ rest)
before b (m ∷ ms, rest) = ((b ∷ m) ∷ ms, rest)

abbrev pub ended : List Text × Text → List Text × Text
ended (ms, rest) = ([] ∷ ms, rest)

-- The complete messages of a text, and what stands behind the last null character.
pub split : Text → List Text × Text
split [] = ([], [])
split (b ∷ t) = if b == 0 then ended (split t) else before b (split t)

no_nul : (t : Text) → count_nul t ≡ 0 → split t ≡ ([], t)
unfolding count_nul split
no_nul [] h = refl
no_nul (b ∷ t) h = ground (arith, no_nul t)

some_nul : (t : Text) (i : ℕ) → count_nul t ≡ suc i → (split t).0 ≢ []
unfolding count_nul split
some_nul [] i h = absurd (omega arith)
some_nul (b ∷ t) i h = ground (arith, some_nul t i)

-- What the loop gives, with the length of the text that is left as its counter.
abbrev Taken : List Text × Text → List Text × Text × ℕ → Type 0
Taken s r = (r.0 ≡ s.0) × (r.1 ≡ s.1) × (r.2 ≡ length s.1)

suc_plus_one : (n : ℕ) → suc n + 1 ≡ suc (n + 1)
suc_plus_one n = omega arith

suc_minus_one : (n : ℕ) → suc n - 1 ≡ n
suc_minus_one n = omega arith

longer_first :
    (b : ℕ) (c : Text) (s : List Text × Text) (r : List Text × Text × ℕ)
    → Taken s (c ∷ r.0, r.1, r.2)
    → Taken (before b s) ((b ∷ c) ∷ r.0, r.1, r.2)
longer_first b c ([], rest) r h = absurd (cc (h.0))
longer_first b c (m ∷ ms, rest) r h = (ground arith, h.1, h.2)

loop-split-more :
    (b i : ℕ) (t : Text)
    → (b == 0) ≡ false
    → Taken (split t) (take_messages (suc i) t (length t))
    → Taken (before b (split t)) (take_messages (suc i) (b ∷ t) (suc (length t)))
unfolding take_messages c_string
loop-split-more b i t nonzero h =
    rw
      (
        nonzero,
        suc_plus_one (length (c_string t)),
        suc-sub-suc (length t) (length (c_string t) + 1),
      )
      (longer_first b (c_string t) (split t) _ h)

loop-split_by_count :
    (b : ℕ) (t : Text) (c : ℕ)
    → count_nul t ≡ c
    → (b == 0) ≡ false
    → Taken (split t) (take_messages c t (length t))
    → Taken (before b (split t)) (take_messages c (b ∷ t) (suc (length t)))
loop-split_by_count b t zero e nonzero h =
    rw (no_nul t e) (unfold take_messages in (refl, refl, refl))
loop-split_by_count b t (suc i) e nonzero h = loop-split-more b i t nonzero h

loop-split_end :
    (b c : ℕ) (t : Text)
    → (b == 0) ≡ true
    → Taken (split t) (take_messages c t (length t))
    → Taken (ended (split t)) (take_messages (suc c) (b ∷ t) (suc (length t)))
unfolding take_messages c_string
loop-split_end b c t e h = rw (e, suc_minus_one (length t)) (ap (◌∷◌ []) h.0, h.1, h.2)

loop-split_nul :
    (b : ℕ) (t : Text)
    → (b == 0) ≡ true
    → Taken (split t) (take_messages (count_nul t) t (length t))
    → Taken (split (b ∷ t)) (take_messages (count_nul (b ∷ t)) (b ∷ t) (suc (length t)))
unfolding split count_nul
loop-split_nul b t e h = rw e (loop-split_end b (count_nul t) t e h)

loop-split_char :
    (b : ℕ) (t : Text)
    → (b == 0) ≡ false
    → Taken (split t) (take_messages (count_nul t) t (length t))
    → Taken (split (b ∷ t)) (take_messages (count_nul (b ∷ t)) (b ∷ t) (suc (length t)))
unfolding split count_nul
loop-split_char b t e h = rw e (loop-split_by_count b t (count_nul t) refl e h)

-- The loop gives the messages of the text, and the text behind them with its length.
loop-split : (t : Text) → Taken (split t) (take_messages (count_nul t) t (length t))
loop-split [] = unfold split take_messages count_nul in (refl, refl, refl)
loop-split (b ∷ t) = elim (Bool-cases (b == 0)) [
  | inl e ↦ loop-split_nul b t e (loop-split t)
  | inr e ↦ loop-split_char b t e (loop-split t)
]

remainder : (t : Text) → (if length t == 0 then [] else take (length t) t) ≡ t
remainder [] = refl
remainder (b ∷ t) = ground (arith, take_all (length t) t)

either_count :
    (raw : Text) (c : ℕ)
    → count_nul raw ≡ c
    → (if ltb 0 c then ((split raw).0, (split raw).1) else ([], raw)) ≡ split raw
either_count raw zero e = sym (no_nul raw e)
either_count raw (suc c) e = ground arith

-- The last part of `parse`.
parse_raw :
    (raw : Text) (n : ℕ)
    → n ≡ length raw
    → Taken (split raw) (take_messages (count_nul raw) raw (length raw))
    → (let (result, ptr, left) = take_messages (count_nul raw) raw n in
        if ltb 0 (count_nul raw)
        then (result, if left == 0 then [] else take left ptr)
        else ([], raw))
      ≡ split raw
parse_raw raw n e h =
    rw (e, h.0, h.1, h.2, remainder (split raw).1) (either_count raw (count_nul raw) refl)

-- `parse` gives the messages that are complete in the prefix and the bytes read, and returns what
-- stands behind them, if `read` is at most the size of the buffer.
pub parse-split :
    (buffer : Text) (read : ℕ) (prefix : Text)
    → read ≤ length buffer
    → parse buffer read prefix ≡ split (prefix ++ take read buffer)
unfolding parse
parse-split buffer read prefix h =
    let raw = prefix ++ take read buffer in
    let size : read + length prefix ≡ length raw =
      omega (arith, length-append prefix (take read buffer), length-take read buffer h) in
    parse_raw raw (read + length prefix) size (loop-split raw)

-- What `parse` gives for one buffer after another, the rest of each being the prefix of the next. Each
-- buffer has been filled from its front by one read.
unfoldable pub parse_all : Text → List (Text × Text) → List Text × Text
parse_all prefix [] = ([], prefix)
parse_all prefix ((bytes, unused) ∷ reads) =
    let (now, rest) = parse (bytes ++ unused) (length bytes) prefix in
    let (later, last) = parse_all rest reads in (now ++ later, last)

abbrev pub all_bytes : List (Text × Text) → Text
all_bytes [] = []
all_bytes ((bytes, unused) ∷ reads) = bytes ++ all_bytes reads

both : List Text → List Text × Text → List Text × Text
both ms s = (ms ++ s.0, s.1)

before-both :
    (b : ℕ) (s : List Text × Text) (t : Text)
    → (b == 0) ≡ false
    → before b (both s.0 (split (s.1 ++ t))) ≡ both (before b s).0 (split ((before b s).1 ++ t))
unfolding split both
before-both b ([], rest) t e = rw e
before-both b (m ∷ ms, rest) t e = refl

split-append : (s t : Text) → split (s ++ t) ≡ both (split s).0 (split ((split s).1 ++ t))
unfolding split
split-append [] t = unfold both in refl
split-append (b ∷ s) t = elim (Bool-cases (b == 0)) [
  | inl e ↦ rw (e, split-append s t) (unfold both in refl)
  | inr e ↦ rw (e, split-append s t) (before-both b (split s) t e)
]

before_rest :
    (b : ℕ) (s : List Text × Text)
    → (b == 0) ≡ false
    → count_nul s.1 ≡ 0
    → count_nul (before b s).1 ≡ 0
unfolding count_nul
before_rest b ([], rest) e h = rw e h
before_rest b (m ∷ ms, rest) e h = h

-- What is kept has no null character.
pub count_nul-rest : (t : Text) → count_nul (split t).1 ≡ 0
unfolding split
count_nul-rest [] = unfold count_nul in refl
count_nul-rest (b ∷ t) = elim (Bool-cases (b == 0)) [
  | inl e ↦ rw e (count_nul-rest t)
  | inr e ↦ rw e (before_rest b (split t) e (count_nul-rest t))
]

-- However the bytes of sertop are cut into reads, the messages are those of the whole text, each once
-- and in order, and what is kept is what stands behind its last null character. The prefix must have
-- no null character, as what an earlier `parse` returned.
pub parse_all-split :
    (prefix : Text) (reads : List (Text × Text))
    → count_nul prefix ≡ 0
    → parse_all prefix reads ≡ split (prefix ++ all_bytes reads)
unfolding parse_all
parse_all-split prefix [] h = rw (append-nil prefix, no_nul prefix h)
parse_all-split prefix ((bytes, unused) ∷ reads) h =
    let e : parse (bytes ++ unused) (length bytes) prefix ≡ split (prefix ++ bytes) =
      parse-split (bytes ++ unused) (length bytes) prefix
        (omega (arith, length-append bytes unused))
      ∙ rw (take-append bytes unused) in
    rw (e, parse_all-split (split (prefix ++ bytes)).1 reads (count_nul-rest (prefix ++ bytes)))
      (unfold both in
        sym (split-append (prefix ++ bytes) (all_bytes reads))
        ∙ ap split (append_assoc prefix bytes (all_bytes reads)))

-- Messages that sertop sends, each with its null character.
abbrev pub terminated : List Text → Text
terminated [] = []
terminated (m ∷ ms) = m ++ (0 ∷ terminated ms)

split-message :
    (m t : Text) → count_nul m ≡ 0 → split (m ++ (0 ∷ t)) ≡ (m ∷ (split t).0, (split t).1)
unfolding split count_nul
split-message [] t h = refl
split-message (b ∷ m) t h = elim (Bool-cases (b == 0)) [
  | inl e ↦ absurd (ground arith)
  | inr e ↦ rw (e, split-message m t (rw e at h))
]

split-terminated :
    (ms : List Text) → All (λ m. count_nul m ≡ 0) ms → split (terminated ms) ≡ (ms, [])
split-terminated [] h = unfold split in refl
split-terminated (m ∷ ms) h = split-message m (terminated ms) h.0 ∙ rw (split-terminated ms h.1)

-- Messages without null characters, which sertop sends one after the other, are received as they are,
-- however their bytes are cut into reads, and nothing is left.
pub parse_all-terminated :
    (ms : List Text) (reads : List (Text × Text))
    → All (λ m. count_nul m ≡ 0) ms
    → all_bytes reads ≡ terminated ms
    → parse_all [] reads ≡ (ms, [])
parse_all-terminated ms reads h e =
    parse_all-split [] reads (unfold count_nul in refl) ∙ rw e (split-terminated ms h)
