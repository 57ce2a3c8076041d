-- ===== src/Net/Connection/Closing.antt =====
-- A connection tells its owner at most once that it is closed, however the events and the loop's tasks follow
-- one another.
use mini_rpc.Base.{
  ◌+◌, ◌≤◌, ◌≡◌, refl, ap, sym, ◌∙◌, ◌⊎◌, inl, inr, List, [], ◌∷◌, ◌++◌, append-nil, append_assoc,
  if-cases, Bool, true, false, not, ◌&&◌, ◌||◌, if◌then◌else◌, Bool-cases, arith, subst, All,
}
use mathlib.Core.Path.{ap₂}
use mini_rpc.Net.Buffer.{ReadOutcome, got, failed}
use mini_rpc.Net.Poller.{Callback, on_read, on_write, on_error, Revents, fire, handle_event}
use mini_rpc.Net.Connection.{
  State, connecting, connected, disconnecting, disconnected, Connection, Notice, Op, establish,
  destroy, close_call, shutdown_call, consume, run_send, run_shutdown, readable, writable,
  is_disconnected, idle, connect_established, shutdown_in_loop, step,
}
use mini_rpc.Net.Connection.Events.{
  Answers, IsCallback, called, handler, handlers, dispatch, Occurrence, event, does, Happens,
  ops_of, run_ops, run_all, Happening, closed_times, closed_times-append, open_once, open_once_lem,
  IsQuiet, Closes, keeps_state, idle-Closes, send_in_loop-Closes, handle_close-Closes,
  handle_read-Closes, handle_write-Closes, connect_destroyed-Closes, shutdown-Closes,
}

-- The same of several operations.
pub record ClosesAll (c : Connection) (p : List Notice × Connection) : Type 0 where
  pub once : closed_times p.0 + open_once p.1.state ≤ open_once c.state
  pub quiet : IsQuiet p.1

nothing-ClosesAll : (c : Connection) → IsQuiet c → ClosesAll c ([], c)
nothing-ClosesAll c q = record { once = omega arith; quiet = q }

more-ClosesAll :
    (c d : Connection) (ns : List Notice) (p : List Notice × Connection)
    → closed_times ns + open_once d.state ≤ open_once c.state
    → ClosesAll d p
    → ClosesAll c (ns ++ p.0, p.1)
more-ClosesAll c d ns p le l = record {
  once = omega (arith, closed_times-append ns p.0, l.once);
  quiet = l.quiet;
}

cons-ClosesAll :
    (op : Op) (ops : List Op) (c : Connection)
    → Closes c (step op c)
    → ClosesAll (step op c).conn (run_ops ops (step op c).conn)
    → ClosesAll c (run_ops (op ∷ ops) c)
unfolding run_ops
cons-ClosesAll op ops c k l =
    more-ClosesAll c (step op c).conn (step op c).notices (run_ops ops (step op c).conn) k.once l

handlers-append :
    (a : Answers) (xs ys : List Callback) → handlers a (xs ++ ys) ≡ handlers a xs ++ handlers a ys
unfolding handlers
handlers-append a [] ys = refl
handlers-append a (cb ∷ cbs) ys =
    ap (handler a cb ++◌) (handlers-append a cbs ys)
    ∙ sym (append_assoc (handler a cb) (handlers a cbs) (handlers a ys))

handlers-fire :
    (a : Answers) (due : Bool) (cb : Callback)
    → handlers a (fire (λ k. true) due cb) ≡ (if due then handler a cb else [])
unfolding handlers
handlers-fire a true cb = append-nil (handler a cb)
handlers-fire a false cb = refl

-- The operations of the two handlers that matter, each where it is due.
abbrev reads : Answers → Bool → List Op
reads a due = if due then readable a.read ∷ called a.read a.callback else []

abbrev writes : Answers → Bool → List Op
writes a due = if due then writable a.write ∷ [] else []

error_none : (a : Answers) (due : Bool) → handlers a (fire (λ k. true) due on_error) ≡ []
unfolding handlers handler
error_none a true = refl
error_none a false = refl

-- An event closes, or reads and then writes.
dispatch_cases :
    (r : Revents) (a : Answers)
    → (dispatch r a ≡ close_call ∷ [])
      ⊎ ((due due' : Bool) × (dispatch r a ≡ reads a due ++ writes a due'))
unfolding dispatch handle_event handler
dispatch_cases r a = elim (Bool-cases (r.hang_up && not r.input)) [
  | inl e ↦ inl (rw e (unfold handlers in refl))
  | inr e ↦ inr (
    (r.input || (r.priority || r.peer_closed)),
    r.output,
    rw e (
        handlers-append a (fire (λ k. true) r.error on_error) _
        ∙ ap
            (λ xs.
              xs
              ++ handlers a (
                  fire (λ k. true) (r.input || (r.priority || r.peer_closed)) on_read
                  ++ fire (λ k. true) r.output on_write))
            (error_none a r.error)
        ∙ handlers-append a (fire (λ k. true) (r.input || (r.priority || r.peer_closed)) on_read) _
        ∙ ap₂ ◌++◌ (handlers-fire a (r.input || (r.priority || r.peer_closed)) on_read)
            (handlers-fire a r.output on_write)),
  )
]

does-Closes : (op : Op) (c : Connection) → IsQuiet c → Happens (does op) c → Closes c (step op c)
unfolding step connect_established shutdown_in_loop
does-Closes establish c q h = record {
  once = omega (arith, open_once_lem c.state h);
  quiet = λ e. absurd (cc (e));
}
does-Closes destroy c q h = connect_destroyed-Closes c q
does-Closes close_call c q h = absurd h
does-Closes shutdown_call c q h = shutdown-Closes c q
does-Closes (consume n) c q h = keeps_state c _ q refl refl q
does-Closes (run_send answer message) c q h = send_in_loop-Closes answer message c q
does-Closes run_shutdown c q h =
    if-cases (λ d. Closes c (idle d)) c.writing (λ e. idle-Closes c q)
      (λ e. keeps_state c _ q refl refl q)
does-Closes (readable outcome) c q h = absurd h
does-Closes (writable answer) c q h = absurd h

writes-ClosesAll :
    (a : Answers) (due : Bool) (c : Connection) → IsQuiet c → ClosesAll c (run_ops (writes a due) c)
unfolding run_ops step
writes-ClosesAll a true c q =
    let k = handle_write-Closes a.write c q in
    cons-ClosesAll (writable a.write) [] c k (nothing-ClosesAll _ k.quiet)
writes-ClosesAll a false c q = nothing-ClosesAll c q

called-IsCallback :
    (outcome : ReadOutcome) (ops : List Op)
    → All IsCallback ops
    → All IsCallback (called outcome ops)
called-IsCallback (got []) ops h = tt
called-IsCallback (got (x ∷ xs)) ops h = h
called-IsCallback (failed errno) ops h = tt

callback-Happens : (op : Op) (c : Connection) → IsCallback op → Happens (does op) c
callback-Happens shutdown_call c h = tt
callback-Happens (consume n) c h = tt
callback-Happens (run_send answer message) c h = tt
callback-Happens run_shutdown c h = tt
callback-Happens establish c h = absurd h
callback-Happens destroy c h = absurd h
callback-Happens close_call c h = absurd h
callback-Happens (readable outcome) c h = absurd h
callback-Happens (writable answer) c h = absurd h

-- A callback's operations, and then the write handler.
callback-ClosesAll :
    (a : Answers) (ops : List Op) (due : Bool) (c : Connection)
    → All IsCallback ops
    → IsQuiet c
    → ClosesAll c (run_ops (ops ++ writes a due) c)
callback-ClosesAll a [] due c h q = writes-ClosesAll a due c q
callback-ClosesAll a (op ∷ ops) due c h q =
    let k = does-Closes op c q (callback-Happens op c h.0) in
    cons-ClosesAll op (ops ++ writes a due) c k (callback-ClosesAll a ops due _ h.1 k.quiet)

reads-ClosesAll :
    (a : Answers) (due due' : Bool) (c : Connection)
    → All IsCallback a.callback
    → IsQuiet c
    → is_disconnected c.state ≡ false
    → ClosesAll c (run_ops (reads a due ++ writes a due') c)
unfolding step
reads-ClosesAll a true due' c own q h =
    let k = handle_read-Closes a.read c q h in
    cons-ClosesAll (readable a.read) (called a.read a.callback ++ writes a due') c k (
      callback-ClosesAll a (called a.read a.callback) due' _
        (called-IsCallback a.read a.callback own) k.quiet)
reads-ClosesAll a false due' c own q h = writes-ClosesAll a due' c q

-- A channel with an interest belongs to an open connection.
registered-open :
    (c : Connection) → IsQuiet c → (c.reading || c.writing) ≡ true → is_disconnected c.state ≡ false
registered-open c q e = elim (Bool-cases (is_disconnected c.state)) [
  | inl h ↦ let (a, b) = q h in absurd (grind (arith, e, a, b))
  | inr h ↦ h
]

Happens-ClosesAll :
    (o : Occurrence) (c : Connection) → IsQuiet c → Happens o c → ClosesAll c (run_ops (ops_of o) c)
unfolding step
Happens-ClosesAll (event r a) c q h =
    let open_ = registered-open c q h.0 in
    elim (dispatch_cases r a) [
      | inl e ↦
          subst (λ ops. ClosesAll c (run_ops ops c)) (sym e)
            (let k = handle_close-Closes c open_ in
              cons-ClosesAll close_call [] c k (unfold run_ops in nothing-ClosesAll _ k.quiet))
      | inr (due, due', e) ↦
          subst (λ ops. ClosesAll c (run_ops ops c)) (sym e)
            (reads-ClosesAll a due due' c h.1 q open_)
    ]
Happens-ClosesAll (does op) c q h =
    let k = does-Closes op c q h in
    cons-ClosesAll op [] c k (unfold run_ops in nothing-ClosesAll _ k.quiet)

run_all-ClosesAll :
    (os : List Occurrence) (c : Connection)
    → IsQuiet c
    → Happening os c
    → ClosesAll c (run_all os c)
unfolding run_all
run_all-ClosesAll [] c q h = nothing-ClosesAll c q
run_all-ClosesAll (o ∷ os) c q (now, later) =
    let k = Happens-ClosesAll o c q now in
    more-ClosesAll c (run_ops (ops_of o) c).1 (run_ops (ops_of o) c).0 _ k.once
      (run_all-ClosesAll os (run_ops (ops_of o) c).1 k.quiet later)

open_once-le : (s : State) → open_once s ≤ 1
open_once-le connecting = omega arith
open_once-le connected = omega arith
open_once-le disconnecting = omega arith
open_once-le disconnected = omega arith

open_once_closed : (s : State) → is_disconnected s ≡ true → open_once s ≡ 0
open_once_closed connecting h = cc (h)
open_once_closed connected h = cc (h)
open_once_closed disconnecting h = cc (h)
open_once_closed disconnected h = refl

-- However the events of a connection's channel and the tasks of its loop follow one another, its owner
-- is told at most once that it is closed, and never where it was closed at the start: from a
-- connection that has no interest if it is closed, where events come only while the channel has an
-- interest, each with all its handlers and with any sends, shutdowns and reads of the message callback
-- between the read and the write handler, where the handlers run in events only, and where
-- connectEstablished does not run on a closed connection.
pub closes_once :
    (os : List Occurrence) (c : Connection)
    → IsQuiet c
    → Happening os c
    → (closed_times (run_all os c).0 ≤ 1)
      × (is_disconnected c.state ≡ true → closed_times (run_all os c).0 ≡ 0)
closes_once os c q h =
    let k = run_all-ClosesAll os c q h in
    (
      omega (arith, k.once, open_once-le c.state),
      λ e. omega (arith, k.once, open_once_closed c.state e),
    )
