-- ===== src/Examples/Echo/Lines.antt =====
-- The loops of the echo clients, where what comes back is what was sent, cut in any way.
use mini_rpc.Base.{
  ℕ, zero, suc, ◌≡◌, ◌≢◌, refl, ap, sym, ◌∙◌, List, [], ◌∷◌, ◌++◌, append-nil, append_assoc, true,
  false, Option, some, All, arith, drop, if_pos,
}
use mini_rpc.Base.Text.{Text, text, Text-discrete}
use mini_rpc.Base.Decimal.{to_string, IsDigit, to_string-IsDigit}
use mini_rpc.Examples.Echo.{
  newline, Recv, gave, ended, broke, has_newline, collect, Trip, print_echo, session, check_echo,
  stress_message, worker,
}

abbrev pub IsLine : Text → Type 0
IsLine = All (λ c. c ≢ newline)

abbrev pub ended_line : Text → Text
ended_line line = line ++ (newline ∷ [])

-- Reads of one byte or more each.
abbrev pub Cut : Type 0
Cut = List (ℕ × List ℕ)

abbrev pub recvs : Cut → List Recv
recvs [] = []
recvs ((x, xs) ∷ cs) = gave x xs ∷ recvs cs

abbrev pub joined : Cut → Text
joined [] = []
joined ((x, xs) ∷ cs) = (x ∷ xs) ++ joined cs

has_newline-append : (line : Text) → has_newline (ended_line line) ≡ true
unfolding has_newline
has_newline-append [] = refl
has_newline-append (x ∷ xs) = ground (arith, has_newline-append xs)

collect_done :
    (answers : List Recv) (response : Text)
    → has_newline response ≡ true
    → collect answers response ≡ some (response, answers)
unfolding collect
collect_done [] response h = rw h refl
collect_done (gave x xs ∷ answers) response h = rw h refl
collect_done (ended ∷ answers) response h = rw h refl
collect_done (broke ∷ answers) response h = rw h refl

not_nil : (xs : Text) (y : ℕ) (ys : Text) → xs ++ (y ∷ ys) ≢ []
not_nil [] y ys e = cc (e)
not_nil (x ∷ xs) y ys e = cc (e)

-- Before its last byte a line has no newline.
has_newline-begin :
    (response line : Text) (x : ℕ) (ys : Text)
    → response ++ (x ∷ ys) ≡ ended_line line
    → IsLine line
    → has_newline response ≡ false
unfolding has_newline
has_newline-begin [] line x ys e plain = refl
has_newline-begin (r ∷ rs) [] x ys e plain = absurd (not_nil rs x ys (ap (drop 1) e))
has_newline-begin (r ∷ rs) (l ∷ ls) x ys e (ne, plain) =
    let same : r ≡ l = cc in ground (arith, has_newline-begin rs ls x ys (ap (drop 1) e) plain)

-- The inner loop reads a line that comes back whole, and no more.
pub collect_line :
    (line : Text) (cs : Cut) (more : List Recv) (response : Text)
    → response ++ joined cs ≡ ended_line line
    → IsLine line
    → collect (recvs cs ++ more) response ≡ some (ended_line line, more)
unfolding collect
collect_line line [] more response e plain =
    let whole : response ≡ ended_line line = sym (append-nil response) ∙ e in
    collect_done more response (ap has_newline whole ∙ has_newline-append line)
    ∙ ap (λ r. some (r, more)) whole
collect_line line ((x, xs) ∷ cs) more response e plain =
    rw (has_newline-begin response line x (xs ++ joined cs) e plain) (
      collect_line line cs more (response ++ (x ∷ xs))
        (append_assoc response (x ∷ xs) (joined cs) ∙ e) plain)

-- An exchange in which `line` comes back.
pub record Echoes (line : Text) (t : Trip) : Type 0 where
  pub sent : t.sent ≡ true
  pub cut : Cut
  pub answers : t.answers ≡ recvs cut
  pub bytes : joined cut ≡ ended_line line

collect_echo :
    (line : Text) (t : Trip)
    → IsLine line
    → Echoes line t
    → collect t.answers [] ≡ some (ended_line line, [])
collect_echo line t plain e =
    ap (λ a. collect a []) (e.answers ∙ sym (append-nil (recvs e.cut)))
    ∙ collect_line line e.cut [] [] e.bytes plain

abbrev pub AllEcho : List Text → List Trip → Type 0
AllEcho [] trips = Unit
AllEcho (line ∷ lines) [] = ⊥
AllEcho (line ∷ lines) (t ∷ trips) = Echoes line t × AllEcho lines trips

abbrev pub all_lines : List Text → Text
all_lines [] = []
all_lines (line ∷ lines) = ended_line line ++ all_lines lines

print_echo-line :
    (line out : Text) (more : Option Text)
    → more ≡ some out
    → print_echo (some (ended_line line, [])) more ≡ some (ended_line line ++ out)
print_echo-line [] out more e = rw e refl
print_echo-line (x ∷ xs) out more e = rw e refl

-- An echo client whose lines, without a newline in them, all go out and come back, each cut into reads
-- in any way, prints exactly those lines, each with its newline.
pub session_echoes :
    (lines : List Text) (trips : List Trip)
    → All IsLine lines
    → AllEcho lines trips
    → session lines trips ≡ some (all_lines lines)
unfolding session
session_echoes [] trips plain e = refl
session_echoes (line ∷ lines) [] plain e = absurd e
session_echoes (line ∷ lines) (t ∷ trips) (here, plain) (e, more) =
    rw (e.sent, collect_echo line t here e)
      (print_echo-line line (all_lines lines) (session lines trips)
        (session_echoes lines trips plain more))

-- The message of a round, without its newline.
abbrev stress_line : ℕ → ℕ → Text
stress_line id i = text "client-" ++ (to_string id ++ (text "-msg-" ++ to_string i))

stress_message_lem : (id i : ℕ) → stress_message id i ≡ ended_line (stress_line id i)
unfolding stress_message
stress_message_lem id i = ap (text "client-" ++◌) (
    ap (to_string id ++◌) (sym (append_assoc (text "-msg-") (to_string i) (newline ∷ [])))
    ∙ sym (append_assoc (to_string id) (text "-msg-" ++ to_string i) (newline ∷ [])))

IsLine-append : (xs ys : Text) → IsLine xs → IsLine ys → IsLine (xs ++ ys)
IsLine-append [] ys h k = k
IsLine-append (x ∷ xs) ys (ne, h) k = (ne, IsLine-append xs ys h k)

IsLine-digits : (xs : Text) → All IsDigit xs → IsLine xs
IsLine-digits [] h = tt
IsLine-digits (x ∷ xs) (d, h) = ((λ e. omega (arith, d, e)), IsLine-digits xs h)

IsLine-text : (xs : Text) → has_newline xs ≡ false → IsLine xs
unfolding has_newline
IsLine-text [] h = tt
IsLine-text (x ∷ xs) h = ((λ e. ground (arith, e)), IsLine-text xs (ground arith))

stress_line-IsLine : (id i : ℕ) → IsLine (stress_line id i)
unfolding has_newline
stress_line-IsLine id i = IsLine-append (text "client-") _ (IsLine-text (text "client-") refl) (
    IsLine-append (to_string id) _ (IsLine-digits (to_string id) (to_string-IsDigit id)) (
      IsLine-append (text "-msg-") _ (IsLine-text (text "-msg-") refl)
        (IsLine-digits (to_string i) (to_string-IsDigit i))))

-- The messages of `k` rounds from `i` on.
abbrev pub stress_lines : ℕ → ℕ → ℕ → List Text
stress_lines id zero i = []
stress_lines id (suc k) i = stress_line id i ∷ stress_lines id k (suc i)

check_echo-same :
    (message : Text) (left : List Recv) (more : Option ℕ)
    → check_echo message (some (message, left)) more ≡ more
check_echo-same message left more = rw (if_pos (Text-discrete message message) refl)

-- A worker whose messages all come back, cut in any way, counts no failure.
pub worker_passes :
    (id k i : ℕ) (trips : List Trip)
    → AllEcho (stress_lines id k i) trips
    → worker id k i trips ≡ some 0
unfolding worker
worker_passes id zero i trips e = refl
worker_passes id (suc k) i [] e = absurd e
worker_passes id (suc k) i (t ∷ trips) (e, more) =
    let back = collect_echo (stress_line id i) t (stress_line-IsLine id i) e in
    rw (e.sent, back, stress_message_lem id i)
      (check_echo-same (ended_line (stress_line id i)) [] (worker id k (suc i) trips)
        ∙ worker_passes id k (suc i) trips more)
