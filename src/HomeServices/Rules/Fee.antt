-- ===== src/HomeServices/Rules/Fee.antt =====
-- What a cancellation keeps back.
use v2_backend.Common.Int.{pos, ◌≤ℤ◌, pos_part}
use v2_backend.HomeServices.Rules.{cancellation_fee, tenth, pos}
use v2_backend.Common.{ℕ, ◌≡◌, ◌≤◌, ◌+◌, ◌<◌, ◌*◌, arith}

-- Of a total that is not negative, the cancellation fee is between nothing and the total, nothing
-- within two hours of booking, and a tenth of the total rounded to the nearest paisa after that.
pub cancellation_fee_bounds :
    (total booked_at now : ℕ)
    → (pos 0 ≤ℤ cancellation_fee (pos total) booked_at now)
      × (cancellation_fee (pos total) booked_at now ≤ℤ pos total)
      × (now ≤ booked_at + 7_200_000 → cancellation_fee (pos total) booked_at now ≡ pos 0)
      × (booked_at + 7_200_000 < now
          → (10 * pos_part (cancellation_fee (pos total) booked_at now) ≤ total + 5)
            × (total < 10 * pos_part (cancellation_fee (pos total) booked_at now) + 5 + 1))
unfolding cancellation_fee tenth
cancellation_fee_bounds total booked_at now = ground arith
