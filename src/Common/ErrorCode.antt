-- ===== src/Common/ErrorCode.antt =====
-- include/minirpc/common/ErrorCode.h and src/common/ErrorCode.cpp. `ErrorCode` is an enum over `int`:
-- a cast makes any 32-bit pattern a value of it, so a value is its pattern.
use mini_rpc.Base.{ℕ, ◌==◌, if◌then◌else◌}
use mini_rpc.Base.Text.{Text, text}

abbrev pub ErrorCode : Type 0
ErrorCode = ℕ

abbrev pub ok : ErrorCode
ok = 0

abbrev pub system : ErrorCode
system = 1

abbrev pub invalid_argument : ErrorCode
invalid_argument = 2

abbrev pub timeout : ErrorCode
timeout = 3

abbrev pub closed : ErrorCode
closed = 4

abbrev pub no_service : ErrorCode
no_service = 5

abbrev pub no_method : ErrorCode
no_method = 6

abbrev pub unknown : ErrorCode
unknown = 99

unfoldable pub error_code_to_string : ErrorCode → Text
error_code_to_string code =
    if code == ok
    then text "OK"
    else if code == system
    then text "SYSTEM_ERROR"
    else if code == invalid_argument
    then text "INVALID_ARGUMENT"
    else if code == timeout
    then text "TIMEOUT"
    else if code == closed
    then text "CONNECTION_CLOSED"
    else if code == no_service
    then text "NO_SERVICE"
    else if code == no_method
    then text "NO_METHOD"
    else text "UNKNOWN"
