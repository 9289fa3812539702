-- ===== src/Sockets.antt =====
-- The reads and writes of wrk2/src/net.c and wrk2/src/ssl.c. What the system or OpenSSL answers is
-- an argument.
use weaver_dsb.Prelude.{
  ℕ, zero, suc, ◌-◌, ◌^◌, Bool, true, false, Option, none, some, List, [], ◌∷◌,
}
use weaver_dsb.Prelude.Tests.{◌==◌, if◌then◌else◌}
use weaver_dsb.Prelude.Lists.{set, replicate}
use weaver_dsb.Prelude.Int.{ℤ, pos, negsuc}
use weaver_dsb.Wrk.{Status, ok, error, retry}

-- `errno` after a call that failed
pub data Errno : Type 0 where
  eagain other_errno : Errno

-- what SSL_get_error says of a call that failed
pub data SslError : Type 0 where
  want_read want_write other_error : SslError

-- 2^64 - 1, the conversion of -1 to a size_t
abbrev pub as_size : ℤ → ℕ
as_size (pos n) = n
as_size (negsuc n) = 2 ^ 64 - n - 1

abbrev sock_connect : Status
sock_connect = ok

abbrev sock_close : Status
sock_close = ok

-- The status, and `*n`. A failed read is an error whatever errno says.
unfoldable pub sock_read : ℤ → Status × ℕ
sock_read (pos n) = (ok, n)
sock_read (negsuc n) = (error, as_size (negsuc n))

-- the switch on errno, and the one on SSL_get_error
abbrev pub from_errno : Errno → Status
from_errno eagain = retry
from_errno other_errno = error

abbrev pub from_ssl_error : SslError → Status
from_ssl_error want_read = retry
from_ssl_error want_write = retry
from_ssl_error other_error = error

-- `none` is where `*n` is left as it was; a write fails with -1.
unfoldable pub sock_write : Errno → ℤ → Status × Option ℕ
sock_write e (pos n) = (ok, some n)
sock_write e (negsuc n) = if n == 0 then (from_errno e, none) else (ok, some (as_size (negsuc n)))

-- the bytes that can be read, by ioctl, which may fail
unfoldable sock_readable : Bool → ℕ → ℕ
sock_readable failed n = if failed then 0 else n

unfoldable pub ssl_connect : SslError → ℤ → Status
ssl_connect e (pos n) = if n == 1 then ok else from_ssl_error e
ssl_connect e (negsuc n) = from_ssl_error e

abbrev ssl_close : Status
ssl_close = ok

-- SSL_read or SSL_write: a positive result is the number of bytes.
abbrev pub ssl_transfer : SslError → ℤ → Status × Option ℕ
ssl_transfer e (pos zero) = (from_ssl_error e, none)
ssl_transfer e (pos (suc n)) = (ok, some (suc n))
ssl_transfer e (negsuc n) = (from_ssl_error e, none)

unfoldable ssl_read : SslError → ℤ → Status × Option ℕ
ssl_read e r = ssl_transfer e r

unfoldable ssl_write : SslError → ℤ → Status × Option ℕ
ssl_write e r = ssl_transfer e r

-- SSL_pending
abbrev ssl_readable : ℕ → ℕ
ssl_readable pending = pending

-- The locks that OpenSSL asks for, each held or not; `locked` is where the mode has CRYPTO_LOCK.
unfoldable pub ssl_lock : Bool → ℕ → List Bool → List Bool
ssl_lock locked n locks = set locks n locked

-- ssl_init: how many locks there are, and whether the context could be made
unfoldable pub ssl_init : ℕ → Bool → Bool → List Bool × Bool
ssl_init count allocated made = if allocated then (replicate count false, made) else ([], false)

-- `sock` of wrk.c: the functions for plain connections, or those of OpenSSL after "https"
pub data Transport : Type 0 where
  plain tls : Transport

abbrev pub starts_with : List ℕ → List ℕ → Bool
starts_with [] text = true
starts_with (c ∷ prefix) [] = false
starts_with (c ∷ prefix) (d ∷ text) =
    let rest = starts_with prefix text in if c == d then rest else false
