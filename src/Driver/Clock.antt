-- ===== src/Driver/Clock.antt =====
-- The times of src/lane.rs: a delay is a `u64`, cast to `i64` and added to the clock with saturation.
use reve.Prelude.{ℕ, ◌+◌, ◌-◌, min, ℤ, pos, negsuc, pos_part, neg_part, ltb, if◌then◌else◌}
use reve.State.{RetryPolicy, delay_ms}

abbrev pub i64_half : ℕ
i64_half = 9223372036854775808

-- `delay as i64`.
unfoldable pub as_i64 : ℕ → ℤ
as_i64 n = if ltb n i64_half then pos n else negsuc (i64_half + i64_half - 1 - n)

-- `i64::saturating_add`.
unfoldable pub saturating_add : ℤ → ℤ → ℤ
saturating_add a b =
    let up = pos_part a + pos_part b in
    let down = neg_part a + neg_part b in
    if ltb up down
    then negsuc (min (down - up - 1) (i64_half - 1))
    else pos (min (up - down) (i64_half - 1))

-- When the attempt after this one may start.
unfoldable pub retry_at : ℤ → RetryPolicy → ℕ → ℤ
unfolding saturating_add as_i64 delay_ms
retry_at now policy attempt = saturating_add now (as_i64 (delay_ms policy attempt))
