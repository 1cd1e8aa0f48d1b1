-- ===== src/Memory.antt =====
-- The functions of libc.c that write memory: a byte at each address. The addresses do not wrap around.
-- The functions return their first argument, which is left out, but for `memset`.
pub mod Copy
pub mod Strings
pub mod Examples
use mikucos.Base.{ℕ, zero, suc, ◌+◌, ◌%◌, ◌==◌, ltb, if◌then◌else◌}
use mikucos.Base.Outcome.{Outcome, ok, blocked, ◌>>=◌}

abbrev pub Bytes : Type 0
Bytes = ℕ → ℕ

abbrev pub store : Bytes → ℕ → ℕ → Bytes
store m a b x = if x == a then b else m x

unfoldable pub memcpy : ℕ → ℕ → ℕ → Bytes → Bytes
memcpy zero dest src m = m
memcpy (suc n) dest src m = memcpy n (dest + 1) (src + 1) (store m dest (m src))

-- With the address that is returned.
unfoldable pub memset : ℕ → ℕ → ℕ → Bytes → Bytes × ℕ
memset zero s c m = (m, s)
memset (suc n) s c m = memset n (s + 1) c (store m s (c % 256))

-- The loop of `strlen` with a count of its rounds, at `s` with `i`.
unfoldable pub strlen_loop : ℕ → Bytes → ℕ → ℕ → Outcome ℕ
strlen_loop zero m s i = blocked
strlen_loop (suc rounds) m s i =
    let more = strlen_loop rounds m (s + 1) (i + 1) in if m s == 0 then ok i else more

unfoldable pub strlen : ℕ → Bytes → ℕ → Outcome ℕ
strlen rounds m s = strlen_loop rounds m s 0

unfoldable pub strcpy : ℕ → ℕ → ℕ → Bytes → Outcome Bytes
strcpy rounds dest str m = strlen rounds m str >>= λ n. ok (memcpy (n + 1) dest str m)

unfoldable pub strncpy : ℕ → ℕ → ℕ → ℕ → Bytes → Outcome Bytes
strncpy rounds dest str n m =
    strlen rounds m str >>= λ len. ok (memcpy (if ltb (len + 1) n then len + 1 else n) dest str m)

unfoldable pub strcat : ℕ → ℕ → ℕ → Bytes → Outcome Bytes
strcat rounds dest src m = strlen rounds m dest >>= λ n. strcpy rounds (dest + n) src m
