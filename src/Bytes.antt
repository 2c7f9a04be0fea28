-- ===== src/Bytes.antt =====
-- include/naudio/ByteCursor.hpp: the writer that appends big-endian fields, and the bounds-checked
-- reader, which yields zeros past the end and remembers that it did.
pub mod Laws
use naudio.Prelude.{
  ℕ, zero, suc, ◌+◌, ◌-◌, ◌*◌, ◌/◌, ◌%◌, ◌^◌, ◌<◌, min, Bool, true, false, List, [], ◌∷◌, ◌++◌,
  length, get_or, take, drop, ltb, if◌then◌else◌,
}

-- `buf_` of a `ByteWriter` is the list of its bytes.
unfoldable pub put_u8 : List ℕ → ℕ → List ℕ
put_u8 w v = w ++ v % 256 ∷ []

-- The loop `for i = k - 1 .. 0` that pushes byte `i` of `u`.
unfoldable pub put_be : ℕ → List ℕ → ℕ → List ℕ
put_be zero w u = w
put_be (suc i) w u = put_be i (w ++ u / 256 ^ i % 256 ∷ []) u

unfoldable pub put_u16 : List ℕ → ℕ → List ℕ
put_u16 w v = (w ++ v / 256 % 256 ∷ []) ++ v % 256 ∷ []

-- `putI32` and `putU32`: a signed value is its bit pattern.
unfoldable pub put_u32 : List ℕ → ℕ → List ℕ
unfolding put_be
put_u32 = put_be 4

-- `putI64`.
unfoldable pub put_u64 : List ℕ → ℕ → List ℕ
unfolding put_be
put_u64 = put_be 8

unfoldable pub put_bytes : List ℕ → List ℕ → List ℕ
put_bytes w bytes = w ++ bytes

pub record Reader : Type 0 where
  pub source : List ℕ
  pub pos : ℕ
  pub truncated : Bool

unfoldable pub reader : List ℕ → Reader
reader source = record { source = source; pos = 0; truncated = false }

unfoldable pub remaining : Reader → ℕ
remaining r = if ltb r.pos (length r.source) then length r.source - r.pos else 0

-- `setPosition`.
unfoldable pub set_pos : Reader → ℕ → Reader
set_pos r n = record r { pos = n }

unfoldable pub get_u8 : Reader → ℕ × Reader
get_u8 r =
    if ltb r.pos (length r.source)
    then (get_or r.source r.pos 0, record r { pos = r.pos + 1 })
    else (0, record r { truncated = true })

unfoldable pub get_u16 : Reader → ℕ × Reader
unfolding get_u8
get_u16 r = let (hi, r1) = get_u8 r in let (lo, r2) = get_u8 r1 in ((hi * 256 + lo) % 2 ^ 16, r2)

-- The loop `v = (v << 8) | getU8()` in a word of `k` bytes; the low byte of `v << 8` is 0, so the
-- `|` adds.
unfoldable pub get_be : ℕ → ℕ → ℕ → Reader → ℕ × Reader
unfolding get_u8
get_be modulus zero v r = (v, r)
get_be modulus (suc i) v r = let (b, r') = get_u8 r in get_be modulus i (v * 256 % modulus + b) r'

-- `getI32`, as a bit pattern.
unfoldable pub get_u32 : Reader → ℕ × Reader
unfolding get_be
get_u32 = get_be (2 ^ 32) 4 0

-- `getI64`, as a bit pattern.
unfoldable pub get_u64 : Reader → ℕ × Reader
unfolding get_be
get_u64 = get_be (2 ^ 64) 8 0

-- `readBytes` and `readString`.
unfoldable pub read_bytes : Reader → ℕ → List ℕ × Reader
unfolding remaining
read_bytes r n =
    let avail = remaining r in
    let count = if ltb n avail then n else avail in
    (
      take count (drop r.pos r.source),
      record r { pos = r.pos + count; truncated = if ltb count n then true else r.truncated },
    )
