-- ===== src/Prelude/Bytes.antt =====
-- Go strings and byte slices as lists of byte values, with what the program uses of the packages
-- strings, bytes and strconv. The case mapping is that of ASCII.
use Prim.Native.Char.{code}
use Prim.Native.String.{String}
use lampd.Prelude.Int.{ℤ, pos, negsuc}
use lampd.Prelude.Tests.{leb, ltb, ◌==◌, if◌then◌else◌}
use lampd.Prelude.Lists.{length, drop}
use Prim.Native.Nat.{ℕ, zero, suc, ◌+◌, ◌-◌, ◌*◌, ◌/◌, ◌%◌, ◌^◌}
use mathlib.Core.Path.{◌≡◌}
use mathlib.Core.Logic.{◌↔◌}
use mathlib.Core.Bool.{Bool, true, false, ◌&&◌, ◌||◌}
use mathlib.Core.List.{List, [], ◌∷◌, map, reverse}
use mathlib.Core.Option.{Option, none, some}
use native.Mathlib.Omega.{arith}

abbrev pub Bytes : Type 0
Bytes = List ℕ

-- The bytes of an ASCII literal.
abbrev pub codes : String → Bytes
codes String.[] = []
codes (String.◌∷◌ c s) = code c ∷ codes s

infix 50 ◌=b◌
unfoldable pub ◌=b◌ : Bytes → Bytes → Bool
[] =b [] = true
(x ∷ xs) =b (y ∷ ys) = x == y && xs =b ys
_ =b _ = false

pub =b_iff : (a b : Bytes) → ((a =b b) ≡ true) ↔ (a ≡ b)
unfolding ◌=b◌
=b_iff (x ∷ xs) (y ∷ ys) = ground (arith, =b_iff xs ys)
=b_iff _ _ = ground arith

-- `a < b` on strings
unfoldable pub bytes_lt : Bytes → Bytes → Bool
bytes_lt [] [] = false
bytes_lt [] (y ∷ ys) = true
bytes_lt (x ∷ xs) [] = false
bytes_lt (x ∷ xs) (y ∷ ys) = ltb x y || (x == y && bytes_lt xs ys)

-- strings.HasPrefix, with the prefix first
unfoldable pub has_prefix : Bytes → Bytes → Bool
has_prefix [] s = true
has_prefix (p ∷ ps) [] = false
has_prefix (p ∷ ps) (c ∷ s) = p == c && has_prefix ps s

-- strings.Contains, with the part first
unfoldable pub contains : Bytes → Bytes → Bool
unfolding has_prefix
contains part [] = has_prefix part []
contains part (c ∷ s) = has_prefix part (c ∷ s) || contains part s

-- strings.ContainsAny, with the characters first
unfoldable pub contains_any : Bytes → Bytes → Bool
contains_any chars [] = false
contains_any chars (c ∷ s) = contains (c ∷ []) chars || contains_any chars s

-- strings.TrimPrefix and strings.TrimSuffix, with what is cut first
unfoldable pub trim_prefix : Bytes → Bytes → Bytes
unfolding has_prefix
trim_prefix p s = if has_prefix p s then drop (length p) s else s

unfoldable pub trim_suffix : Bytes → Bytes → Bytes
unfolding trim_prefix
trim_suffix p s = reverse (trim_prefix (reverse p) (reverse s))

unfoldable pub lower_byte : ℕ → ℕ
lower_byte c = if leb b'A' c && leb c b'Z' then c + 32 else c

unfoldable pub upper_byte : ℕ → ℕ
upper_byte c = if leb b'a' c && leb c b'z' then c - 32 else c

unfoldable pub to_lower : Bytes → Bytes
unfolding lower_byte
to_lower = map lower_byte

unfoldable pub to_upper : Bytes → Bytes
unfolding upper_byte
to_upper = map upper_byte

-- strings.EqualFold
unfoldable pub equal_fold : Bytes → Bytes → Bool
unfolding to_lower ◌=b◌
equal_fold a b = to_lower a =b to_lower b

-- The text before the first separator, and the text behind it, if there is one.
unfoldable pub cut : ℕ → Bytes → Bytes × Option Bytes
cut sep [] = ([], none)
cut sep (c ∷ s) =
    let (head, rest) = cut sep s in if c == sep then ([], some s) else (c ∷ head, rest)

-- bytes.TrimLeft(s, " ")
unfoldable pub trim_left : Bytes → Bytes
trim_left [] = []
trim_left (c ∷ s) = if c == b' ' then trim_left s else c ∷ s

unfoldable pub is_space : ℕ → Bool
is_space c = c == b' ' || (leb 9 c && leb c 13)

-- strings.Fields
unfoldable pub fields_onto : Bytes → Bytes → List Bytes
unfolding is_space
fields_onto [] [] = []
fields_onto (w ∷ word) [] = reverse (w ∷ word) ∷ []
fields_onto word (c ∷ s) =
    let fresh = fields_onto [] s in
    let longer = fields_onto (c ∷ word) s in
    if is_space c then (elim word [ [] ↦ fresh | w ∷ ws ↦ reverse (w ∷ ws) ∷ fresh ]) else longer

unfoldable pub fields : Bytes → List Bytes
unfolding fields_onto
fields = fields_onto []

unfoldable pub digits : ℕ → Bytes → Option ℕ
digits n [] = some n
digits n (c ∷ s) =
    let rest = digits (n * 10 + (c - b'0')) s in if leb b'0' c && leb c b'9' then rest else none

unfoldable pub number : Bytes → Option ℕ
unfolding digits
number [] = none
number (c ∷ s) = digits 0 (c ∷ s)

abbrev to_int : Bool → Option ℕ → Option ℤ
to_int negative none = none
to_int false (some n) = if ltb n (2 ^ 63) then some (pos n) else none
to_int true (some zero) = some (pos 0)
to_int true (some (suc n)) = if ltb n (2 ^ 63) then some (negsuc n) else none

-- strconv.Atoi: a sign, digits, and the range of a 64-bit integer
unfoldable pub atoi : Bytes → Option ℤ
unfolding number
atoi [] = none
atoi (c ∷ s) =
    if c == b'-'
    then to_int true (number s)
    else if c == b'+'
    then to_int false (number s)
    else to_int false (number (c ∷ s))

unfoldable pub show_onto : ℕ → ℕ → Bytes → Bytes
show_onto zero n text = text
show_onto (suc fuel) n text =
    let rest = show_onto fuel (n / 10) ((b'0' + n % 10) ∷ text) in
    if ltb n 10 then (b'0' + n) ∷ text else rest

-- `%d` and `%v` of an integer
unfoldable pub show_int : ℤ → Bytes
unfolding show_onto
show_int (pos n) = show_onto (n + 1) n []
show_int (negsuc n) = b'-' ∷ show_onto (n + 2) (n + 1) []
