-- ===== src/Prelude/Spaces.antt =====
-- White space in texts, and `str.strip`.
use Prim.Native.Nat.{ℕ}
use mathlib.Core.Bool.{Bool, ◌&&◌, ◌||◌}
use mathlib.Core.List.{[], ◌∷◌}
use product_updates.Prelude.Tests.{◌==◌, leb, if◌then◌else◌}
use product_updates.Prelude.Texts.{Text, is_empty}

-- `str.isspace` of one code point
abbrev pub is_space : ℕ → Bool
is_space c =
    (leb 9 c && leb c 13)
    || (leb 28 c && leb c 32)
    || (c == 133)
    || (c == 160)
    || (c == 5760)
    || (leb 8192 c && leb c 8202)
    || (c == 8232)
    || (c == 8233)
    || (c == 8239)
    || (c == 8287)
    || (c == 12288)

-- `lstrip` and `rstrip`
unfoldable pub drop_spaces : Text → Text
drop_spaces [] = []
drop_spaces (c ∷ t) = let rest = drop_spaces t in if is_space c then rest else c ∷ t

unfoldable pub drop_last_spaces : Text → Text
drop_last_spaces [] = []
drop_last_spaces (c ∷ t) =
    let rest = drop_last_spaces t in if is_empty rest && is_space c then [] else c ∷ rest

-- `strip`
unfoldable pub strip : Text → Text
unfolding drop_spaces drop_last_spaces
strip t = drop_last_spaces (drop_spaces t)
