-- ===== src/Domain/Times.antt =====
-- Go's time package as far as the mesh computes with it. A `Time` is the nanosecond it names,
-- counted from the Unix epoch, and a `Duration` a number of nanoseconds, an int64.
use resilient_mesh_razorpayb.Base.{
  ℕ, suc, ◌-◌, ◌*◌, ◌/◌, ◌%◌, ◌^◌, ◌<◌, ◌≡◌, arith, ltb, if◌then◌else◌, ℤ, pos, negsuc, ◌+ℤ◌, ◌-ℤ◌,
  ◌≤ℤ◌, ◌<ℤ◌, ltb_ℤ, +ℤ_parts, -ℤ_parts,
}

abbrev pub Time : Type 0
Time = ℤ

abbrev pub Duration : Type 0
Duration = ℤ

abbrev pub second : ℕ
second = 1_000_000_000

-- The zero value of time.Time, the first instant of the year 1.
abbrev pub zero_time : Time
zero_time = negsuc (62_135_596_800 * second - 1)

-- Time.Truncate(time.Microsecond), which rounds down.
unfoldable pub truncate_microsecond : Time → Time
truncate_microsecond (pos n) = pos (n / 1000 * 1000)
truncate_microsecond (negsuc n) = negsuc (suc (n / 1000) * 1000 - 1)

abbrev pub min_duration : Duration
min_duration = negsuc 9_223_372_036_854_775_807

abbrev pub max_duration : Duration
max_duration = pos 9_223_372_036_854_775_807

-- Time.Sub saturates at the bounds of int64.
unfoldable pub time_sub : Time → Time → Duration
time_sub t u =
    let d = t -ℤ u in
    if ltb_ℤ d min_duration then min_duration else if ltb_ℤ max_duration d then max_duration else d

-- Conversion to int64, which keeps the low 64 bits.
unfoldable pub wrap_int64 : ℤ → ℤ
wrap_int64 (pos n) = let r = n % 2 ^ 64 in if ltb r (2 ^ 63) then pos r else negsuc (2 ^ 64 - 1 - r)
wrap_int64 (negsuc n) =
    let r = n % 2 ^ 64 in if ltb r (2 ^ 63) then negsuc r else pos (2 ^ 64 - 1 - r)

-- time.Duration(s) * time.Second
unfoldable pub seconds_duration : ℤ → Duration
unfolding wrap_int64
seconds_duration (pos n) = wrap_int64 (pos (n * second))
seconds_duration (negsuc n) = wrap_int64 (negsuc (suc n * second - 1))

-- A whole number of seconds below 2 ^ 33 does not wrap.
pub seconds_duration_exact : (n : ℕ) → n < 2 ^ 33 → seconds_duration (pos n) ≡ pos (n * second)
unfolding seconds_duration
seconds_duration_exact n h = ground arith

-- A difference that is not saturated from above is no less than the true one.
pub time_sub_lower : (t u : Time) → time_sub t u <ℤ max_duration → t ≤ℤ u +ℤ time_sub t u
unfolding time_sub
time_sub_lower t u h = ground (arith, -ℤ_parts t u, +ℤ_parts u (time_sub t u), +ℤ_parts u (t -ℤ u))
