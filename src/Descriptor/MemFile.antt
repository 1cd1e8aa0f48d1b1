-- ===== src/Descriptor/MemFile.antt =====
-- Files in memory.
use mikucos.Base.{
  ℕ, ◌+◌, ◌-◌, ◌%◌, ◌^◌, ◌<◌, ◌≡◌, none, some, List, ◌==◌, ltb, if◌then◌else◌, arith, length, take,
  drop, Bool-cases, inl, inr,
}
use mikucos.Base.Outcome.{ok, panic}
use mikucos.Descriptor.{OpenFile, memfile_read}
use Prim.Native.Nat.{min}

-- Up to the end of the buffer, `memfile_read` reads what is left, `len` bytes at most, and moves the
-- position behind them; at the end it returns -1. Behind the end it does not: the subtraction has no
-- sign, so it reads outside the buffer, whatever the length that is asked for (but 0).
pub memfile_read-window :
    (memory : List ℕ) (f : OpenFile) (len : ℕ)
    → length memory < 2 ^ 32
    → f.position < 2 ^ 32
    → 0 < len
    → memfile_read memory f len ≡ (
        if ltb f.position (length memory)
        then ok (
          some (take (min len (length memory - f.position)) (drop f.position memory)),
          f.position + min len (length memory - f.position),
        )
        else if f.position == length memory
        then ok (none, f.position)
        else panic)
unfolding memfile_read
memfile_read-window memory f len a b c =
    let size = length memory in
    elim (Bool-cases (ltb f.position size)) [
      | inl inside ↦
          let left : (size + 2 ^ 32 - f.position) % 2 ^ 32 ≡ size - f.position = ground arith in
          let n : (if ltb (size - f.position) len then size - f.position else len)
              ≡ min len (size - f.position) =
            ground arith in
          rw (inside, left, n) (ground arith)
      | inr outside ↦ rw outside (ground arith)
    ]
