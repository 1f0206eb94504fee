-- ===== src/User/Casts.antt =====
-- The cast to `int` of the stubs.
use process_control.Base.{◌<◌, ◌-◌, ◌%◌, if◌then◌else◌, ◌≡◌, ap, ◌∙◌, true, arith, lt→ltb}
use process_control.Base.Int.{ℤ, pos, negsuc, is_int}
use process_control.User.State.{signed, int_of}

-- The values of an `int`.
abbrev pub IsInt : ℤ → Type 0
IsInt (pos n) = n < 2147483648
IsInt (negsuc n) = n < 2147483648

pub is_int-IsInt : (z : ℤ) → IsInt z → is_int z ≡ true
is_int-IsInt (pos n) h = lt→ltb n 2147483648 h
is_int-IsInt (negsuc n) h = lt→ltb n 2147483648 h

-- The cast keeps an `int`.
pub int_of-IsInt : (z : ℤ) → IsInt z → int_of z ≡ z
unfolding int_of
int_of-IsInt (pos n) h =
    ap signed small ∙ ap (λ b. if b then pos n else negsuc (4294967295 - n)) (lt→ltb n 2147483648 h)
  where
    small : n % 4294967296 ≡ n
    small = omega arith
int_of-IsInt (negsuc n) h = ground arith
