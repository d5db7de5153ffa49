-- ===== src/NativeHost/Framing.antt =====
-- The loop of the host ends, and answers every message that is an object.
use hypr_blocker.Base.{
  ℕ, zero, suc, ◌/◌, ◌%◌, ◌<◌, ◌≤◌, ◌≡◌, refl, ap, ◌∙◌, true, Option, none, some, List, [], ◌∷◌,
  ◌++◌, arith, length, All, map, ltb,
}
use hypr_blocker.NativeHost.{
  Bytes, limit, pack_length, unpack_length, send_message, take_bytes, drop_bytes, Read,
  end_of_input, broken, message, read_message, Parsed, null, undecodable, decoded, Action, Answer,
  answer, answer_then, on_action, round, run,
}

length-drop : (n : ℕ) (t : Bytes) → length (drop_bytes n t) ≤ length t
length-drop zero t = omega arith
length-drop (suc n) [] = omega arith
length-drop (suc n) (c ∷ t) = omega (arith, length-drop n t)

-- A reading leaves less to read.
abbrev Shorter : ℕ → Read → Type 0
Shorter n end_of_input = Unit
Shorter n broken = Unit
Shorter n (message m rest) = length rest < n

read_message-Shorter : (input : Bytes) → Shorter (length input) (read_message input)
unfolding read_message
read_message-Shorter [] = tt
read_message-Shorter (a ∷ []) = tt
read_message-Shorter (a ∷ b ∷ []) = tt
read_message-Shorter (a ∷ b ∷ c ∷ []) = tt
read_message-Shorter (a ∷ b ∷ c ∷ d ∷ t) = omega (arith, length-drop (unpack_length a b c d) t)

abbrev pub Ends : Option (List Answer) → Type 0
Ends none = ⊥
Ends (some answers) = Unit

on_action-Ends :
    (browser : ℕ) (a : Parsed) (rest : Option (List Answer))
    → Ends rest
    → Ends (on_action browser a rest)
on_action-Ends browser null rest h = tt
on_action-Ends browser undecodable rest h = tt
on_action-Ends browser (decoded a) none h = h
on_action-Ends browser (decoded a) (some answers) h = tt

unpack-pack : (n : ℕ) → unpack_length (n % 256) (n / 256 % 256) (n / 65536 % 256) (n / 16777216) ≡ n
unpack-pack n = omega arith

take-append : (m t : Bytes) → take_bytes (length m) (m ++ t) ≡ m
take-append [] t = refl
take-append (c ∷ m) t = ap (λ (l : Bytes). c ∷ l) (take-append m t)

drop-append : (m t : Bytes) → drop_bytes (length m) (m ++ t) ≡ t
drop-append [] t = refl
drop-append (c ∷ m) t = drop-append m t

-- A message with its length in front is read back, whatever follows.
read-send : (m t : Bytes) → read_message (pack_length (length m) ++ (m ++ t)) ≡ message m t
unfolding read_message pack_length
read-send m t =
    ap (λ n. message (take_bytes n (m ++ t)) (drop_bytes n (m ++ t))) (unpack-pack (length m))
    ∙ ap (λ l. message l (drop_bytes (length m) (m ++ t))) (take-append m t)
    ∙ ap (message m) (drop-append m t)

module _ (parse : Bytes → Parsed) (browser : ℕ) where
  round-Ends :
      (n : ℕ) (rounds : Bytes → Option (List Answer)) (r : Read)
      → Shorter n r
      → ((t : Bytes) → length t < n → Ends (rounds t))
      → Ends (round parse browser rounds r)
  unfolding round
  round-Ends n rounds end_of_input h f = tt
  round-Ends n rounds broken h f = tt
  round-Ends n rounds (message m rest) h f =
      on_action-Ends browser (parse m) (rounds rest) (f rest h)

  -- The loop of the host ends: with fuel for more rounds than the input has bytes it gives its answers, whatever
  -- the input is and however messages are decoded.
  pub run-Ends :
      (fuel : ℕ) (input : Bytes) → length input < fuel → Ends (run parse browser fuel input)
  unfolding run
  run-Ends zero input h = ground (arith, h)
  run-Ends (suc fuel) input h =
      round-Ends (length input) (run parse browser fuel) (read_message input)
        (read_message-Shorter input) (λ t k. run-Ends fuel t (omega arith))

abbrev framed : Option Bytes → Bytes
framed none = []
framed (some b) = b

-- What the extension writes: the messages one after the other.
unfoldable pub stream : List Bytes → Bytes
unfolding send_message
stream [] = []
stream (m ∷ ms) = framed (send_message m) ++ stream ms

stream-cons :
    (m : Bytes) (ms : List Bytes)
    → length m < limit
    → read_message (stream (m ∷ ms)) ≡ message m (stream ms)
unfolding stream
stream-cons m ms h =
    let short : ltb (length m) limit ≡ true = ground (arith, h) in
    rw short (read-send m (stream ms))

-- A message that can be framed and decodes to the action.
abbrev pub Decodes : (Bytes → Parsed) → Bytes × Action → Type 0
Decodes parse e = (length e.0 < limit) × (parse e.0 ≡ decoded e.1)

-- Messages that decode to objects, each with the four bytes of its length in front and each shorter than four
-- gigabytes, are read back as they were sent: the host answers each of them by its action, in their order,
-- and ends at the end of the input.
pub answers_each :
    (parse : Bytes → Parsed) (browser : ℕ) (es : List (Bytes × Action))
    → All (Decodes parse) es
    → run parse browser (suc (length es)) (stream (map (λ e. e.0) es))
      ≡ some (map (λ e. answer browser e.1) es)
unfolding run round stream
answers_each parse browser [] a = refl
answers_each parse browser ((m, act) ∷ es) a =
    let rest = answers_each parse browser es a.1 in
    ap (round parse browser (run parse browser (suc (length es))))
      (stream-cons m (map (λ e. e.0) es) a.0.0)
    ∙ ap
        (λ o.
          on_action browser o (run parse browser (suc (length es)) (stream (map (λ e. e.0) es))))
        a.0.1
    ∙ ap (answer_then (answer browser act)) rest
