-- ===== src/Os.antt =====
-- What the calls into the operating system return, and the return codes that the sources pass on.
use mavlink_router.Prelude.{ℕ, zero, suc, Bool, true, false}

-- The error numbers that the sources test for; any other is only passed on.
pub data Errno : Type 0 where
  eagain enobufs einval enoent erange epipe econnrefused enetunreach : Errno
  other : ℕ → Errno

-- An `int` or `ssize_t` result: a count, or a negative error number.
pub data Ret : Type 0 where
  count : ℕ → Ret
  failed : Errno → Ret

-- `r < 0`
abbrev pub is_failure : Ret → Bool
is_failure (count n) = false
is_failure (failed e) = true

-- `r == 0`
abbrev pub is_zero : Ret → Bool
is_zero (count zero) = true
is_zero (count (suc n)) = false
is_zero (failed e) = false

-- `r > 0`
abbrev pub is_positive : Ret → Bool
is_positive (count zero) = false
is_positive (count (suc n)) = true
is_positive (failed e) = false

-- `r == -EAGAIN`
abbrev pub is_eagain : Ret → Bool
is_eagain (failed eagain) = true
is_eagain (failed e) = false
is_eagain (count n) = false

-- `r == -ENOBUFS`
abbrev pub is_enobufs : Ret → Bool
is_enobufs (failed enobufs) = true
is_enobufs (failed e) = false
is_enobufs (count n) = false

-- `r == -EPIPE`
abbrev pub is_epipe : Ret → Bool
is_epipe (failed epipe) = true
is_epipe (failed e) = false
is_epipe (count n) = false
