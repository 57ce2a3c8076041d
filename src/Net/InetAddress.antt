-- ===== src/Net/InetAddress.antt =====
-- include/minirpc/net/InetAddress.h and src/net/InetAddress.cpp: an IPv4 address with a port, in the host's byte
-- order. `inet_pton` and `inet_ntop` are parameters.
use mathlib.Core.Path.{ap₂}
use mini_rpc.Base.{
  ℕ, ◌^◌, ◌<◌, ◌≡◌, ◌≢◌, [], ◌∷◌, ◌++◌, Bool, if◌then◌else◌, Option, none, some, All, arith,
}
use mini_rpc.Base.Text.{Text}
use mini_rpc.Base.Decimal.{
  to_string, atoi, atoi-to_string, split_last, split_last-append, IsDigit, to_string-IsDigit,
}

-- The text form of a 32-bit address parses back.
pub record Inet : Type 0 where
  pub pton : Text → Option ℕ
  pub ntop : ℕ → Text
  pub pton-ntop : (a : ℕ) → a < 2 ^ 32 → pton (ntop a) ≡ some a

pub record InetAddress : Type 0 where
  pub ip : ℕ
  pub port : ℕ

-- INADDR_ANY and INADDR_LOOPBACK
abbrev pub any : ℕ
any = 0

abbrev pub loopback : ℕ
loopback = 0x7f000001

unfoldable pub from_port : ℕ → Bool → InetAddress
from_port port loopback_only = record { ip = if loopback_only then loopback else any; port = port }

abbrev pub or_any : Option ℕ → ℕ → InetAddress
or_any none port = record { ip = any; port = port }
or_any (some a) port = record { ip = a; port = port }

module _ (inet : Inet) where
  -- A text that is no address stands for every local one.
  unfoldable pub from_text : Text → ℕ → InetAddress
  from_text ip port = or_any (inet.pton ip) port

  unfoldable pub to_ip : InetAddress → Text
  to_ip a = inet.ntop a.ip

  unfoldable pub to_ip_port : InetAddress → Text
  to_ip_port a = to_ip a ++ (b':' ∷ to_string a.port)

  -- The text of an address, split at its last colon as src/rpc/LoadBalanceChannel.cpp does, gives it back.
  pub to_ip_port-from_text :
      (a : InetAddress)
      → a.ip < 2 ^ 32
      → a.port < 2 ^ 64
      → (host digits : Text) × (split_last b':' (to_ip_port a) ≡ some (host, digits))
        × (from_text host (atoi digits) ≡ a)
  unfolding to_ip_port to_ip from_text
  to_ip_port-from_text a h k = (
    inet.ntop a.ip,
    to_string a.port,
    split_last-append b':' (inet.ntop a.ip) (to_string a.port)
        (no_colon (to_string a.port) (to_string-IsDigit a.port)),
    ap₂ or_any (inet.pton-ntop a.ip h) (atoi-to_string a.port k),
  )
    where
      no_colon : (xs : Text) → All IsDigit xs → All (λ x. x ≢ b':') xs
      no_colon [] d = tt
      no_colon (x ∷ xs) (d, ds) = ((λ e. omega (arith, d, e)), no_colon xs ds)
