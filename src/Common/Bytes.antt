-- ===== src/Common/Bytes.antt =====
-- Byte strings: a `String` is the list of its UTF-8 bytes.
use argos_fs.Common.Tests.{ltb, leb, ◌==◌, if◌then◌else◌}
use argos_fs.Common.Map.{Key}
use Prim.Native.Nat.{ℕ, zero, suc}
use Prim.Native.String.{String}
use Prim.Native.Char.{code}
use mathlib.Core.Path.{◌≡◌}
use mathlib.Core.Logic.{◌↔◌}
use mathlib.Core.Bool.{Bool, true, false, ◌&&◌}
use mathlib.Core.Option.{Option, none, some}
use mathlib.Core.List.{List, [], ◌∷◌}
use native.Mathlib.Omega.{arith}

-- The bytes of an ASCII literal.
abbrev pub bytes_of : String → List ℕ
bytes_of String.[] = []
bytes_of (String.◌∷◌ c s) = code c ∷ bytes_of s

abbrev pub take : ℕ → List ℕ → List ℕ
take zero bs = []
take (suc n) [] = []
take (suc n) (b ∷ bs) = b ∷ take n bs

abbrev pub drop : ℕ → List ℕ → List ℕ
drop zero bs = bs
drop (suc n) [] = []
drop (suc n) (b ∷ bs) = drop n bs

abbrev pub same_bytes : List ℕ → List ℕ → Bool
same_bytes [] [] = true
same_bytes (a ∷ rest) (b ∷ bs) = a == b && same_bytes rest bs
same_bytes _ _ = false

pub same_bytes_iff : (a b : List ℕ) → (same_bytes a b ≡ true) ↔ (a ≡ b)
same_bytes_iff [] [] = ground arith
same_bytes_iff [] (b ∷ bs) = ground arith
same_bytes_iff (a ∷ rest) [] = ground arith
same_bytes_iff (a ∷ rest) (b ∷ bs) = ground (arith, same_bytes_iff rest bs)

instance abbrev pub bytes_key : Key (List ℕ)
bytes_key = record { same = λ a b. same_bytes a b; same_iff = same_bytes_iff }

-- `strip_prefix`.
abbrev pub strip_prefix : List ℕ → List ℕ → Option (List ℕ)
strip_prefix [] bs = some bs
strip_prefix (p ∷ ps) [] = none
strip_prefix (p ∷ ps) (b ∷ bs) = let rest = strip_prefix ps bs in if p == b then rest else none

abbrev pub is_present : Option (List ℕ) → Bool
is_present none = false
is_present (some bs) = true

abbrev pub starts_with : List ℕ → List ℕ → Bool
starts_with p bs = is_present (strip_prefix p bs)

-- What the first byte of a UTF-8 sequence asks for: the number of bytes behind it, and the range
-- of the first of them.
abbrev pub lead : ℕ → Option (ℕ × ℕ × ℕ)
lead b =
    if ltb b 128
    then some (0, 128, 191)
    else if ltb b 194
    then none
    else if ltb b 224
    then some (1, 128, 191)
    else if b == 224
    then some (2, 160, 191)
    else if b == 237
    then some (2, 128, 159)
    else if ltb b 240
    then some (2, 128, 191)
    else if b == 240
    then some (3, 144, 191)
    else if ltb b 244
    then some (3, 128, 191)
    else if b == 244
    then some (3, 128, 143)
    else none

-- `std::str::from_utf8`, inside a sequence that wants `n` more bytes.
unfoldable pub is_utf8_inside : List ℕ → (n lo hi : ℕ) → Bool
is_utf8_inside [] n lo hi = n == 0
is_utf8_inside (b ∷ bs) (suc n) lo hi = leb lo b && leb b hi && is_utf8_inside bs n 128 191
is_utf8_inside (b ∷ bs) zero lo hi = elim (lead b) [
  | none ↦ false
  | some (n, lo', hi') ↦ is_utf8_inside bs n lo' hi'
]

abbrev pub is_utf8 : List ℕ → Bool
is_utf8 bytes = is_utf8_inside bytes 0 128 191
