-- ===== src/NativeHost/Tests.antt =====
-- Instances of the properties of the native host.
use hypr_blocker.Base.{◌≡◌, refl, some, List, [], ◌∷◌, arith, map, suc, length}
use hypr_blocker.Base.Text.{codes}
use hypr_blocker.NativeHost.{
  Bytes, Action, Parsed, null, decoded, get_pid, ping, pong, answer, run, round, read_message,
}
use hypr_blocker.NativeHost.Framing.{Ends, run-Ends, stream, answers_each}

-- A decoder that takes a message by its length.
abbrev by_length : Bytes → Parsed
by_length [] = null
by_length (c ∷ []) = decoded ping
by_length (c ∷ d ∷ t) = decoded get_pid

abbrev messages : List (Bytes × Action)
messages = (codes "p", ping) ∷ (codes "ab", get_pid) ∷ []

answers_each_example :
    run by_length 77 (suc (length messages)) (stream (map (λ e. e.0) messages))
    ≡ some (map (λ e. answer 77 e.1) messages)
answers_each_example =
    answers_each by_length 77 messages ((omega arith, refl), ((omega arith, refl), tt))

-- A length that promises more than there is, and one that is cut off.
abbrev cut_off : Bytes
cut_off = 9 ∷ 0 ∷ 0 ∷ 0 ∷ 65 ∷ []

cut_off_is_answered : run by_length 77 6 cut_off ≡ some (pong ∷ [])
unfolding run round read_message
cut_off_is_answered = refl

run-Ends_example : Ends (run by_length 77 6 cut_off)
run-Ends_example = run-Ends by_length 77 6 cut_off (omega arith)
