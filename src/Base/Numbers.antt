-- ===== src/Base/Numbers.antt =====
-- Numbers out of texts: atoi, std::stoi and std::stoll.
use Prim.Native.Nat.{ℕ, ◌+◌, ◌-◌, ◌*◌, ◌^◌}
use mathlib.Core.Bool.{Bool, false, ◌&&◌, ◌||◌}
use mathlib.Core.Option.{Option, none, some}
use mathlib.Core.List.{[], ◌∷◌}
use wow_so_distributed.Base.Tests.{leb, ltb, ◌==◌, if◌then◌else◌}
use wow_so_distributed.Base.Text.{Bytes}
use wow_so_distributed.Base.Int.{ℤ, pos, negsuc, neg}

-- atoi: spaces, a sign, digits. A value that fits no int is undefined behaviour in C and not
-- modelled.
unfoldable pub skip_spaces : Bytes → Bytes
skip_spaces [] = []
skip_spaces (c ∷ s) =
    let rest = skip_spaces s in if c == 32 || (leb 9 c && leb c 13) then rest else c ∷ s

unfoldable pub digits_value : ℕ → Bytes → ℕ
digits_value acc [] = acc
digits_value acc (c ∷ s) =
    let rest = digits_value (acc * 10 + (c - b'0')) s in
    if leb b'0' c && leb c b'9' then rest else acc

unfoldable pub signed_value : Bytes → ℤ
unfolding digits_value
signed_value [] = pos 0
signed_value (c ∷ s) =
    if c == b'-'
    then neg (pos (digits_value 0 s))
    else if c == b'+'
    then pos (digits_value 0 s)
    else pos (digits_value 0 (c ∷ s))

unfoldable pub atoi : Bytes → ℤ
unfolding skip_spaces signed_value
atoi s = signed_value (skip_spaces s)

abbrev is_digit : ℕ → Bool
is_digit c = leb b'0' c && leb c b'9'

unfoldable starts_number : Bytes → Bool
starts_number [] = false
starts_number (c ∷ []) = is_digit c
starts_number (c ∷ d ∷ s) = is_digit c || ((c == b'-' || c == b'+') && is_digit d)

-- Whether the number fits a signed integer of `bits` and one more bits.
unfoldable fits_in : ℕ → ℤ → Bool
fits_in bits (pos n) = ltb n (2 ^ bits)
fits_in bits (negsuc n) = ltb n (2 ^ bits)

-- std::stoi and std::stoll by their width; `none` where they throw.
unfoldable parse_signed : ℕ → Bytes → Option ℤ
unfolding skip_spaces starts_number fits_in atoi
parse_signed bits s =
    if starts_number (skip_spaces s) && fits_in bits (atoi s) then some (atoi s) else none

unfoldable pub stoi : Bytes → Option ℤ
unfolding parse_signed
stoi = parse_signed 31

unfoldable pub stoll : Bytes → Option ℤ
unfolding parse_signed
stoll = parse_signed 63
