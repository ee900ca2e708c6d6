-- ===== src/Prelude/Int64.antt =====
-- Go's int64 and int: a two's complement word, held as a number below 2 ^ 64.
use Prim.Native.Nat.{ℕ, ◌+◌, ◌-◌, ◌*◌, ◌/◌, ◌%◌, ◌≤◌, ◌<◌}
use mathlib.Core.Path.{◌≡◌}
use mathlib.Core.Bool.{Bool, not}
use native.Mathlib.Omega.{arith}
use native.Mathlib.Nat.{mod-eq_of_lt}
use ai_scheduler.Prelude.Tests.{ltb, leb, if◌then◌else◌}

-- 2 ^ 64 and 2 ^ 63.
abbrev pub modulus : ℕ
modulus = 18446744073709551616

abbrev pub half_modulus : ℕ
half_modulus = 9223372036854775808

abbrev pub InRange : ℕ → Type 0
InRange a = a < modulus

abbrev pub IsNonneg : ℕ → Type 0
IsNonneg a = a < half_modulus

unfoldable pub add : ℕ → ℕ → ℕ
add a b = (a + b) % modulus

unfoldable pub neg : ℕ → ℕ
neg a = (modulus - a) % modulus

unfoldable pub sub : ℕ → ℕ → ℕ
sub a b = (a + (modulus - b)) % modulus

unfoldable pub mul : ℕ → ℕ → ℕ
mul a b = (a * b) % modulus

unfoldable pub is_negative : ℕ → Bool
is_negative a = leb half_modulus a

unfoldable pub magnitude : ℕ → ℕ
unfolding is_negative
magnitude a = if is_negative a then modulus - a else a

-- The signed order.
unfoldable pub lt : ℕ → ℕ → Bool
lt a b = ltb ((a + half_modulus) % modulus) ((b + half_modulus) % modulus)

unfoldable pub le : ℕ → ℕ → Bool
le a b = leb ((a + half_modulus) % modulus) ((b + half_modulus) % modulus)

-- Division rounds towards zero. (Go panics on a zero divisor: the callers test for it.)
unfoldable pub quot : ℕ → ℕ → ℕ
unfolding is_negative magnitude neg
quot a b =
    if is_negative a
    then if is_negative b then magnitude a / magnitude b else neg (magnitude a / magnitude b)
    else if is_negative b
    then neg (magnitude a / magnitude b)
    else magnitude a / magnitude b

pub add-InRange : (a b : ℕ) → InRange (add a b)
unfolding add
add-InRange a b = omega arith

pub sub-InRange : (a b : ℕ) → InRange (sub a b)
unfolding sub
sub-InRange a b = omega arith

pub add_comm : (a b : ℕ) → add a b ≡ add b a
unfolding add
add_comm a b = omega arith

pub add_assoc : (a b c : ℕ) → add (add a b) c ≡ add a (add b c)
unfolding add
add_assoc a b c = omega arith

pub add_zero : (a : ℕ) → InRange a → add a 0 ≡ a
unfolding add
add_zero a h = omega arith

-- A subtraction undoes an addition, also one that wrapped.
pub sub-add : (a b : ℕ) → InRange a → InRange b → sub (add a b) b ≡ a
unfolding add sub
sub-add a b h k = omega arith

pub add-sub : (a b : ℕ) → InRange a → InRange b → add (sub a b) b ≡ a
unfolding add sub
add-sub a b h k = omega arith

pub le-nonneg : (a b : ℕ) → IsNonneg a → IsNonneg b → le a b ≡ leb a b
unfolding le
le-nonneg a b h k = ground arith

pub lt-nonneg : (a b : ℕ) → IsNonneg a → IsNonneg b → lt a b ≡ ltb a b
unfolding lt
lt-nonneg a b h k = ground arith

pub sub_zero : (a : ℕ) → InRange a → sub a 0 ≡ a
unfolding sub
sub_zero a h = omega arith

pub le-not-lt : (a b : ℕ) → lt b a ≡ not (le a b)
unfolding le lt
le-not-lt a b = ground arith

-- On amounts that are not negative and do not overflow the operations are those of the numbers.
pub add-nonneg : (a b : ℕ) → IsNonneg (a + b) → add a b ≡ a + b
unfolding add
add-nonneg a b h = omega arith

pub sub-nonneg : (a b : ℕ) → IsNonneg a → b ≤ a → sub a b ≡ a - b
unfolding sub
sub-nonneg a b h k = omega arith

pub mul-nonneg : (a b : ℕ) → IsNonneg (a * b) → mul a b ≡ a * b
unfolding mul
mul-nonneg a b h = mod-eq_of_lt (omega arith)

pub quot-nonneg : (a b : ℕ) → IsNonneg a → IsNonneg b → quot a b ≡ a / b
unfolding quot
quot-nonneg a b h k = ground arith
