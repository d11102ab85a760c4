-- ===== src/Clock.antt =====
-- Go's package time, as far as the program uses it. Each operation of the program is given the
-- reading of the clock at which it runs.
use Prim.Native.Nat.{min}
use license_proxyserver.Base.{Bool, false, zero, ℕ, ◌*◌, ◌≤◌, ◌≡◌, true, arith}
use license_proxyserver.Base.Int.{ℤ, pos, negsuc, ◌-ℤ◌, ◌+ℤ◌, ◌≤ℤ◌, ltb_ℤ}
use license_proxyserver.Api.{Time}

abbrev pub Duration : Type 0
Duration = ℤ

abbrev pub max_duration : ℕ
max_duration = 9223372036854775807

-- `t.Sub(u)` stops at the ends of int64.
unfoldable pub saturate : ℤ → Duration
saturate (pos n) = pos (min n max_duration)
saturate (negsuc n) = negsuc (min n max_duration)

-- time.Until(t), at the reading `now`
unfoldable pub until : Time → Time → Duration
unfolding saturate ◌-ℤ◌
until now t = saturate (t -ℤ now)

-- time.Time.IsZero
abbrev pub is_zero : Time → Bool
is_zero (pos zero) = true
is_zero _ = false

abbrev pub second : ℕ
second = 1000000000

-- pkg/storage/store.go
abbrev pub license_acquisition_buffer : Duration
license_acquisition_buffer = pos (5 * second)

abbrev pub min_remaining_life : Duration
min_remaining_life = pos (5 * 60 * second)

-- A bound on the remaining time is a bound on the instant, if the bound is itself in range.
pub until_lt :
    (now t : Time) (n : ℕ) → n ≤ max_duration → ltb_ℤ (until now t) (pos n) ≡ ltb_ℤ t (now +ℤ pos n)
unfolding until ◌+ℤ◌
until_lt now t n h = ground arith

-- Time passes: what has too little time left stays so.
pub until_mono :
    (now later t : Time) (d : Duration)
    → now ≤ℤ later
    → ltb_ℤ (until now t) d ≡ true
    → ltb_ℤ (until later t) d ≡ true
unfolding until
until_mono now later t d h e = ground arith
