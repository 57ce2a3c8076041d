-- ===== src/Rpc/Tests/Client.antt =====
-- A client that waits for response 9.
use mini_rpc.Base.{
  ℕ, Option, take, drop, ◌≡◌, refl, ap, List, [], ◌∷◌, ◌++◌, Bool, none, some, length, arith, false,
  true, inr, inl,
}
use mini_rpc.Base.Text.{Text, text}
use mini_rpc.Net.Buffer.{read_fd, scatter, retrieve, retrieve_as_string, got, create, initial_size}
use mini_rpc.Net.Buffer.Invariant.{IsValid, create-IsValid}
use mini_rpc.Net.Buffer.Refine.{contents-create, filled, filled_lem}
use mini_rpc.Net.Buffer.Contents.{contents}
use mini_rpc.Codec.{ProtocolMessage, try_decode, take_frame, be_bytes, read_header, be_value}
use mini_rpc.Codec.Wire.{wire, header_bytes}
use mini_rpc.Codec.Stream.Frames.{wires}
use mini_rpc.Codec.Tests.{ping, pong}
use mini_rpc.Rpc.Channel.{
  Caller, Channel, Progress, finish, succeeded, closed, wait_round, on_poll, on_bytes, accept,
  wrote, Round, ready, eintr, expired, scan, on_response, wait_response,
}
use mini_rpc.Rpc.Channel.Wait.{Result, wait_response_ends}
use mini_rpc.Rpc.Channel.Call.{Attempt, attempts}
use mini_rpc.Rpc.Channel.Retry.{Tried, attempts-Tried}
use mini_rpc.Rpc.Channel.Provenance.{Answered}
use mini_rpc.Rpc.Channel.Provenance.Rounds.{all_bytes, wait_response-Answered}
use mini_rpc.Rpc.Tests.{pb}

abbrev parses : Text → Bool
parses t = true

abbrev caller : Caller
caller = record { controller = none; reply = none }

abbrev tail : List ℕ
tail = 0x4D ∷ 0x49 ∷ []

abbrev waiting : List ℕ
waiting = wires (ping ∷ []) ++ tail

waiting_lem : (contents (filled waiting) ≡ waiting) × IsValid (filled waiting)
unfolding header_bytes be_bytes
waiting_lem = filled_lem waiting (omega arith)

-- An interrupted poll, a read of a frame for another request, and a clock past the deadline.
abbrev rounds : List Round
rounds =
    record { now = 10; answer = eintr }
    ∷ record { now = 20; answer = ready false true (got (wire ping)) }
    ∷ record { now = 60; answer = expired }
    ∷ []

wait_response_ends_example : Result (wait_response pb parses 9 50 rounds caller (filled waiting))
unfolding header_bytes be_bytes
wait_response_ends_example =
    wait_response_ends pb parses 9 50 rounds caller (filled waiting) waiting_lem.1
      (omega (arith, ap length waiting_lem.0)) (inr (inr (inl (omega arith))))

abbrev channel : Channel
channel = record {
  connected = true;
  timeout = 40;
  max_retries = 2;
  next_seq = 9;
  input = create initial_size;
}

-- Each attempt sends its request in one piece and then waits until it times out.
abbrev slow : Attempt
slow = record {
  sends = wrote 100 ∷ [];
  errno = [];
  start = 10;
  rounds = record { now = 60; answer = expired } ∷ [];
}

attempts-Tried_example :
    Tried 2 9 (attempts pb parses 2 (text "hi") (slow ∷ slow ∷ slow ∷ []) channel caller)
attempts-Tried_example =
    attempts-Tried pb parses 2 (text "hi") (slow ∷ slow ∷ slow ∷ []) channel caller

-- The answer, behind a frame of another request and cut in its header.
abbrev answer : ProtocolMessage
answer = record pong { body = 0 ∷ 0 ∷ text "hi" }

abbrev cut_rounds : List Round
cut_rounds =
    record { now = 10; answer = ready false true (got (wire ping ++ take 10 (wire answer))) }
    ∷ record { now = 15; answer = eintr }
    ∷ record { now = 20; answer = ready false true (got (drop 10 (wire answer))) }
    ∷ []

abbrev cut_run : Option Progress
cut_run = wait_response pb parses 9 50 cut_rounds caller (create initial_size)

ended_of : Option Progress → Progress
ended_of none = finish closed caller (create initial_size)
ended_of (some p) = p

ended : Progress
ended = ended_of cut_run

ended_lem : (cut_run ≡ some ended) × (ended.result ≡ some succeeded)
unfolding ended ended_of wait_response wait_round on_poll on_bytes scan on_response accept
    try_decode read_fd scatter be_value read_header take_frame retrieve_as_string retrieve
    header_bytes be_bytes create pb
ended_lem = (refl, refl)

bytes_lem : length (all_bytes cut_rounds) ≡ 55
unfolding header_bytes be_bytes
bytes_lem = refl

wait_response-Answered_example :
    Answered pb parses 9 (contents (create initial_size) ++ all_bytes cut_rounds) ended.caller.reply
wait_response-Answered_example =
    wait_response-Answered pb parses 9 50 cut_rounds caller (create initial_size)
      (create-IsValid initial_size (omega arith))
      (omega (arith, ap length (contents-create initial_size), bytes_lem)) ended ended_lem.0
      ended_lem.1
