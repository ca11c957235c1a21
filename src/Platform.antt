-- ===== src/Platform.antt =====
-- What LMD takes from Go and is not written out here: float64 arithmetic and its conversions
-- (strconv.ParseFloat, fmt's %v), and the regular expressions of package regexp.
use lampd.Prelude.{ℕ, Bool, Option}
use lampd.Prelude.Int.{ℤ}
use lampd.Prelude.Bytes.{Bytes}

pub record Platform : Type 1 where
  pub Float : Type 0
  pub parse_float : Bytes → Option Float
  pub format_float : Float → Bytes
  -- int(f) and int64(f)
  pub truncate : Float → ℤ
  -- float64(n)
  pub from_nat : ℕ → Float
  pub minus_one : Float
  pub add : Float → Float → Float
  pub div : Float → Float → Float
  pub float_eq : Float → Float → Bool
  pub float_lt : Float → Float → Bool
  pub Regex : Type 0
  -- regexp.Compile
  pub compile : Bytes → Option Regex
  -- Regexp.MatchString
  pub match_regex : Regex → Bytes → Bool
