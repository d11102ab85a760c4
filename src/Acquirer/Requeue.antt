-- ===== src/Acquirer/Requeue.antt =====
-- When the next Reconcile is due.
use license_proxyserver.Base.{◌≡◌, false, ◌||◌, if◌then◌else◌, arith}
use license_proxyserver.Base.Int.{◌-ℤ◌, ◌+ℤ◌, ◌≤ℤ◌, ltb_ℤ}
use license_proxyserver.Api.{Time}
use license_proxyserver.Clock.{is_zero, until, saturate}
use license_proxyserver.Acquirer.{ttl}
use license_proxyserver.Acquirer.Loop.{requeue_after}

-- the choice that the loop makes between two expiry dates
unfoldable pub earlier : Time → Time → Time
earlier earliest t = if is_zero earliest || ltb_ℤ t earliest then t else earliest

-- `earliest` is set, and not after `t`.
abbrev pub IsBefore : Time → Time → Type 0
IsBefore earliest t = (is_zero earliest ≡ false) × (earliest ≤ℤ t)

pub earlier-IsBefore : (earliest t : Time) → is_zero t ≡ false → IsBefore (earlier earliest t) t
unfolding earlier
earlier-IsBefore earliest t h = ground arith

pub earlier-keeps :
    (earliest t u : Time)
    → is_zero t ≡ false
    → IsBefore earliest u
    → IsBefore (earlier earliest t) u
unfolding earlier
earlier-keeps earliest t u h b = ground arith

until_le : (now t u : Time) → t ≤ℤ u → until now (t -ℤ ttl) ≤ℤ until now (u -ℤ ttl)
unfolding until saturate ◌-ℤ◌ ttl ◌+ℤ◌
until_le now t u h = ground arith

-- If the earliest expiry date of the loop is set and is not after `t`, the next reconcile is due
-- no later than when `ttl` is left until `t`, with the durations cut off at the ends of int64.
pub requeue_after-le :
    (now earliest t : Time)
    → IsBefore earliest t
    → requeue_after now earliest ≤ℤ until now (t -ℤ ttl)
unfolding requeue_after
requeue_after-le now earliest t b = ground (arith, until_le now earliest t)
