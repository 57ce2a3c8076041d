-- ===== src/Rpc/Controller.antt =====
-- include/minirpc/rpc/RpcController.h and src/rpc/RpcController.cpp. A callback is a number, and a
-- method that runs callbacks returns those that it ran.
use mini_rpc.Base.{
  ℕ, ◌≡◌, List, [], ◌∷◌, ◌++◌, Bool, true, false, Option, none, some, ◌==◌, if◌then◌else◌, arith,
  ◌≤◌, ◌+◌,
}
use mini_rpc.Base.Text.{Text}
use mini_rpc.Common.ErrorCode
use mini_rpc.Common.ErrorCode.{ErrorCode}

pub record Controller : Type 0 where
  pub failed : Bool
  pub canceled : Bool
  pub error_code : ErrorCode
  pub error_text : Text
  pub cancel_callback : Option ℕ

unfoldable pub fresh : Controller
fresh = record {
  failed = false;
  canceled = false;
  error_code = ErrorCode.ok;
  error_text = [];
  cancel_callback = none;
}

unfoldable pub reset : Controller → Controller
reset c = record c {
  failed = false;
  canceled = false;
  error_code = ErrorCode.ok;
  error_text = [];
  cancel_callback = none;
}

unfoldable pub start_cancel : Controller → Controller × List ℕ
start_cancel c = elim (c.cancel_callback) [
  | none ↦ (record c { canceled = true }, [])
  | some cb ↦ (record c { canceled = true; cancel_callback = none }, cb ∷ [])
]

-- `SetFailed(reason)`
unfoldable pub set_failed : Text → Controller → Controller
set_failed reason c = record c {
  failed = true;
  error_text = reason;
  error_code = if c.error_code == ErrorCode.ok then ErrorCode.unknown else c.error_code;
}

-- `SetFailed(code, reason)`
unfoldable pub set_failed_code : ErrorCode → Text → Controller → Controller
set_failed_code code reason c = record c { failed = true; error_code = code; error_text = reason }

-- `none` is a null callback.
unfoldable pub notify_on_cancel : Option ℕ → Controller → Controller × List ℕ
notify_on_cancel none c = (c, [])
notify_on_cancel (some cb) c =
    if c.canceled then (c, cb ∷ []) else (record c { cancel_callback = some cb }, [])

-- A client's calls on one controller.
pub data Call : Type 0 where
  resets cancels : Call
  fails : Text → Call
  fails_with : ErrorCode → Text → Call
  notifies : ℕ → Call

pub call : Controller → Call → Controller × List ℕ
unfolding reset start_cancel set_failed set_failed_code notify_on_cancel
call c resets = (reset c, [])
call c cancels = start_cancel c
call c (fails reason) = (set_failed reason c, [])
call c (fails_with code reason) = (set_failed_code code reason c, [])
call c (notifies cb) = notify_on_cancel (some cb) c

-- All callbacks run, in order.
pub run : Controller → List Call → Controller × List ℕ
run c [] = (c, [])
run c (k ∷ ks) = let (c', now) = call c k in let (c'', later) = run c' ks in (c'', now ++ later)

-- A cancelled controller holds no callback: it ran when the call was cancelled.
pub record IsSettled (c : Controller) : Type 0 where
  pub ran : c.canceled ≡ true → c.cancel_callback ≡ none

call-IsSettled : (c : Controller) (k : Call) → IsSettled c → IsSettled (call c k).0
unfolding call
call-IsSettled c resets v = ground arith
call-IsSettled c cancels v = ground arith
call-IsSettled c (fails reason) v = ground arith
call-IsSettled c (fails_with code reason) v = ground arith
call-IsSettled c (notifies cb) v = ground arith

-- how often a callback stands in a list, and whether the controller holds it
abbrev pub times : ℕ → List ℕ → ℕ
times cb [] = 0
times cb (x ∷ xs) = (if x == cb then 1 else 0) + times cb xs

abbrev pub held : ℕ → Option ℕ → ℕ
held cb none = 0
held cb (some x) = if x == cb then 1 else 0

abbrev pub handed_by : ℕ → Call → ℕ
handed_by cb (notifies x) = if x == cb then 1 else 0
handed_by cb k = 0

abbrev pub handed : ℕ → List Call → ℕ
handed cb [] = 0
handed cb (k ∷ ks) = handed_by cb k + handed cb ks

times-append : (cb : ℕ) (xs ys : List ℕ) → times cb (xs ++ ys) ≡ times cb xs + times cb ys
times-append cb [] ys = omega arith
times-append cb (x ∷ xs) ys = ground (arith, times-append cb xs ys)

call-times-le :
    (cb : ℕ) (c : Controller) (k : Call)
    → times cb (call c k).1 + held cb (call c k).0.cancel_callback
      ≤ held cb c.cancel_callback + handed_by cb k
unfolding call
call-times-le cb c resets = ground arith
call-times-le cb c cancels = ground arith
call-times-le cb c (fails reason) = ground arith
call-times-le cb c (fails_with code reason) = ground arith
call-times-le cb c (notifies x) = ground arith

-- On any sequence of calls of a controller, a cancel callback runs at most as often as it was handed
-- in, what the controller held at the start and still holds at the end counted.
pub run-times-le :
    (cb : ℕ) (c : Controller) (ks : List Call)
    → times cb (run c ks).1 + held cb (run c ks).0.cancel_callback
      ≤ held cb c.cancel_callback + handed cb ks
unfolding run
run-times-le cb c [] = omega arith
run-times-le cb c (k ∷ ks) = omega (
  arith,
  times-append cb (call c k).1 (run (call c k).0 ks).1,
  call-times-le cb c k,
  run-times-le cb (call c k).0 ks,
)
