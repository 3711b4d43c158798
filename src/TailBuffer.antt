-- ===== src/TailBuffer.antt =====
-- internal/process/tail_buffer.go: the last bytes of a stream. A byte is a number; the mutex and
-- the writer of outputWriter are the environment's.
pub mod Tail
use ruk.Prelude.{
  ℕ, ◌+◌, ◌-◌, Bool, true, false, List, [], ◌∷◌, ◌++◌, ltb, ◌==◌, length, drop, if◌then◌else◌,
}

pub record Buffer : Type 0 where
  pub limit : ℕ
  pub tail : List ℕ
  pub truncated : Bool

-- NewTailBuffer; a limit below 0 acts as 0 does.
abbrev pub new_tail_buffer : ℕ → Buffer
new_tail_buffer limit = record { limit = limit; tail = []; truncated = false }

-- The block that makes room for n bytes.
abbrev pub make_room : ℕ → Buffer → Buffer
make_room n b =
    if ltb b.limit (length b.tail + n)
    then record b { tail = drop (length b.tail + n - b.limit) b.tail; truncated = true }
    else b

abbrev pub append : List ℕ → Buffer → Buffer
append bytes b = record b { tail = b.tail ++ bytes }

-- The branches of Write for a positive limit.
abbrev pub write_within : List ℕ → Buffer → Buffer
write_within bytes b =
    if ltb b.limit (length bytes)
    then record b { tail = drop (length bytes - b.limit) bytes; truncated = true }
    else (if length bytes == b.limit
        then record b { tail = bytes }
        else append bytes (make_room (length bytes) b))

-- Write, but for its result, the number of bytes that it was given.
unfoldable pub write : List ℕ → Buffer → Buffer
write bytes b =
    if b.limit == 0
    then (if ltb 0 (length bytes) then record b { truncated = true } else b)
    else write_within bytes b

-- A stream of writes.
unfoldable pub write_all : List (List ℕ) → Buffer → Buffer
unfolding write
write_all [] b = b
write_all (bytes ∷ rest) b = write_all rest (write bytes b)
