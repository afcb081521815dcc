-- ===== src/Model/Number.antt =====
-- Python's `int` and `float`. Every finite double is a whole multiple of 2^-1074, so a finite float
-- is that multiple; Python compares an `int` with a `float` by their exact values, and so does
-- `number_lt`.
use agent_actum.Base.{ℕ, suc, ◌+◌, ◌-◌, ◌*◌, ◌^◌, Bool, true, false, ltb}

-- `negsuc n` is -(n + 1).
pub data ℤ : Type 0 where
  pos : ℕ → ℤ
  negsuc : ℕ → ℤ

abbrev pub pos_part : ℤ → ℕ
pos_part (pos n) = n
pos_part (negsuc n) = 0

abbrev pub neg_part : ℤ → ℕ
neg_part (pos n) = 0
neg_part (negsuc n) = suc n

abbrev pub ltb_ℤ : ℤ → ℤ → Bool
ltb_ℤ a b = ltb (pos_part a + neg_part b) (pos_part b + neg_part a)

pub data Float : Type 0 where
  finite : ℤ → Float
  inf neg_inf nan : Float

pub data Number : Type 0 where
  int : ℤ → Number
  float : Float → Number

-- The number of units of the smallest positive double in 1.
unfoldable pub units_per_one : ℕ
units_per_one = 2 ^ 1074

-- `a < b` on floats: false as soon as one is not a number.
abbrev pub float_lt : Float → Float → Bool
float_lt nan _ = false
float_lt _ nan = false
float_lt inf _ = false
float_lt neg_inf neg_inf = false
float_lt neg_inf _ = true
float_lt (finite a) (finite b) = ltb_ℤ a b
float_lt (finite _) inf = true
float_lt (finite _) neg_inf = false

-- a * 2^1074 for a natural number, and for an integer.
abbrev pub exact : Number → Float
exact (int (pos n)) = finite (pos (n * units_per_one))
exact (int (negsuc n)) = finite (negsuc (n * units_per_one + (units_per_one - 1)))
exact (float f) = f

abbrev pub number_lt : Number → Number → Bool
number_lt a b = float_lt (exact a) (exact b)

-- `json.dumps(…, allow_nan=False)` refuses the others.
abbrev pub is_finite : Float → Bool
is_finite (finite _) = true
is_finite _ = false
