-- ===== src/Examples/Echo/Tests.antt =====
-- Two lines that come back in pieces, and a worker that is answered wrongly.
use mini_rpc.Base.{◌≡◌, refl, List, [], ◌∷◌, true, some, arith}
use mini_rpc.Base.Text.{Text, Text-discrete}
use mini_rpc.Base.Decimal.{to_string}
use mini_rpc.Examples.Echo.{
  newline, gave, ended, collect, has_newline, Trip, session, stress_message, worker,
}
use mini_rpc.Examples.Echo.Lines.{AllEcho, all_lines, Cut, recvs, session_echoes}

abbrev lines : List Text
lines = (b'a' ∷ b'b' ∷ []) ∷ [] ∷ []

abbrev first : Cut
first = (b'a', []) ∷ (b'b', newline ∷ []) ∷ []

abbrev second : Cut
second = (newline, []) ∷ []

abbrev trips : List Trip
trips =
    record { sent = true; answers = recvs first }
    ∷ record { sent = true; answers = recvs second }
    ∷ []

trips-AllEcho : AllEcho lines trips
trips-AllEcho = (
  record { sent = refl; cut = first; answers = refl; bytes = refl },
  (record { sent = refl; cut = second; answers = refl; bytes = refl }, tt),
)

session_echoes_example : session lines trips ≡ some (all_lines lines)
session_echoes_example =
    session_echoes lines trips (((λ e. omega (arith, e)), ((λ e. omega (arith, e)), tt)), (tt, tt))
      trips-AllEcho

-- The server goes away in the middle of the echo.
cut_off_test :
    worker 3 5 0 (record { sent = true; answers = gave b'c' [] ∷ ended ∷ [] } ∷ []) ≡ some 1
unfolding worker collect has_newline stress_message Text-discrete to_string
cut_off_test = refl
