-- ===== src/Struct.antt =====
-- Python's `struct` with little-endian formats, as the wire records use it.
use pi86_rp.Common.{
  ℕ, zero, suc, ◌+◌, ◌-◌, ◌*◌, ◌/◌, ◌%◌, ◌^◌, Bool, true, ◌&&◌, List, [], ◌∷◌, ◌++◌, ltb, leb, ◌==◌,
  if◌then◌else◌, Bytes, length, take, drop, replicate, struct_error, Result, ok, err,
}
pub mod RoundTrip

-- `unsigned w` is B, H, I or Q with its width in bytes, `text n` is `ns`, `pad n` is `nx`.
pub data Code : Type 0 where
  unsigned : ℕ → Code
  text : ℕ → Code
  pad : ℕ → Code

abbrev pub Format : Type 0
Format = List Code

-- The tuple that `unpack` returns and that `pack` is given.
abbrev pub Fields : Format → Type 0
Fields [] = Unit {0}
Fields (unsigned w ∷ f) = ℕ × Fields f
Fields (text n ∷ f) = Bytes × Fields f
Fields (pad n ∷ f) = Fields f

-- `struct.calcsize`
abbrev pub size : Format → ℕ
size [] = 0
size (unsigned w ∷ f) = w + size f
size (text n ∷ f) = n + size f
size (pad n ∷ f) = n + size f

-- The `w` low bytes of a number, lowest first, and back.
unfoldable pub le : ℕ → ℕ → Bytes
le zero n = []
le (suc w) n = n % 256 ∷ le w (n / 256)

unfoldable pub from_le : Bytes → ℕ
from_le [] = 0
from_le (b ∷ bs) = b + 256 * from_le bs

-- A number that does not fit its field makes `pack` raise `struct.error`.
unfoldable pub fits : (f : Format) → Fields f → Bool
fits [] v = true
fits (unsigned w ∷ f) (n, v) = ltb n (256 ^ w) && fits f v
fits (text n ∷ f) (t, v) = fits f v
fits (pad n ∷ f) v = fits f v

-- A text field is cut or filled with zeros to its size.
unfoldable pub layout : (f : Format) → Fields f → Bytes
unfolding le
layout [] v = []
layout (unsigned w ∷ f) (n, v) = le w n ++ layout f v
layout (text n ∷ f) (t, v) = (take n t ++ replicate (n - length t) 0) ++ layout f v
layout (pad n ∷ f) v = replicate n 0 ++ layout f v

unfoldable pub fields : (f : Format) → Bytes → Fields f
unfolding from_le
fields [] b = tt
fields (unsigned w ∷ f) b = (from_le (take w b), fields f (drop w b))
fields (text n ∷ f) b = (take n b, fields f (drop n b))
fields (pad n ∷ f) b = fields f (drop n b)

unfoldable pub pack : (f : Format) → Fields f → Result Bytes
unfolding fits layout
pack f v = if fits f v then ok (layout f v) else err struct_error

unfoldable pub unpack : (f : Format) → Bytes → Result (Fields f)
unfolding fields
unpack f b = if length b == size f then ok (fields f b) else err struct_error

-- `unpack_from(buffer, offset)` reads the format at an offset and ignores what follows.
unfoldable pub unpack_from : (f : Format) → Bytes → ℕ → Result (Fields f)
unfolding fields
unpack_from f b offset =
    if leb (offset + size f) (length b) then ok (fields f (drop offset b)) else err struct_error
