-- ===== src/Common/Reading.antt =====
-- Little-endian reads at an offset, as the ELF and PE parsers make them.
use Prim.Native.Nat.{ℕ, ◌+◌, ◌-◌, ◌*◌, ◌^◌, ◌≤◌, ◌<◌}
use mathlib.Core.Path.{◌≡◌}
use mathlib.Core.Bool.{◌||◌}
use mathlib.Core.Option.{Option, none, some}
use mathlib.Core.List.{List, [], ◌∷◌}
use native.Mathlib.Omega.{arith}
use native.Mathlib.Nat.{pow-suc}
use upx_killer.Common.Tests.{ltb, if◌then◌else◌}
use upx_killer.Common.Lists.{length, take, drop, All, length-take, length-drop, All-take, All-drop}

-- `value |= static_cast<T>(bytes[offset + index]) << (index * 8)` over the bytes of the value. Bytes
-- are below 256, so the bits of two of them never meet, `|` is a sum, and the shifts add up to this.
unfoldable pub le_value : List ℕ → ℕ
le_value [] = 0
le_value (b ∷ bs) = b + 256 * le_value bs

-- `Read`: `if (offset > bytes.size() || sizeof(T) > bytes.size() - offset) return false;`
unfoldable pub read : ℕ → List ℕ → ℕ → Option ℕ
read width bytes offset =
    if ltb (length bytes) offset || ltb (length bytes - offset) width
    then none
    else some (le_value (take width (drop offset bytes)))

-- A value is read exactly where the bytes hold one.
pub read_inside :
    (width : ℕ) (bytes : List ℕ) (offset v : ℕ)
    → read width bytes offset ≡ some v
    → offset + width ≤ length bytes
unfolding read
read_inside width bytes offset v e = ground arith

le_value-lt : (bs : List ℕ) → All (λ b. b < 256) bs → le_value bs < 256 ^ length bs
unfolding le_value
le_value-lt [] h = omega arith
le_value-lt (b ∷ bs) h = omega (arith, le_value-lt bs h.1, pow-suc 256 (length bs))

-- A value that is read from bytes fits its type.
pub read-lt :
    (width : ℕ) (bytes : List ℕ) (offset v : ℕ)
    → All (λ b. b < 256) bytes
    → read width bytes offset ≡ some v
    → v < 256 ^ width
unfolding read
read-lt width bytes offset v h e =
    let picked = take width (drop offset bytes) in
    let bound = le_value-lt picked (All-take _ width _ (All-drop _ offset bytes h)) in
    let size : length picked ≡ width =
      ground (arith, length-take width (drop offset bytes), length-drop offset bytes) in
    let value : le_value picked ≡ v = ground arith in rw (size, value) at bound
