-- ===== src/Route/Segments.antt =====
-- `bytesToSegments` rounds up, as far as the sum does not leave Go's int.
use tcsss.Prelude.Int.{pos}
use tcsss.Prelude.{ℕ, zero, suc, ◌+◌, ◌*◌, ◌/◌, ◌^◌, ◌≤◌, ◌<◌, ◌≡◌, arith}
use tcsss.Route.Config.{bytes_to_segments}

ceil_bounds :
    (b m : ℕ)
    → (suc b ≤ (b + suc m) / suc m * suc m) × ((b + suc m) / suc m * suc m < suc b + suc m)
ceil_bounds b m = grind arith

-- For a positive number of bytes and a positive segment size whose sum is at most 2 ^ 63, the result
-- is the smallest number of segments that holds the bytes.
pub bytes_to_segments_ceil :
    (b m : ℕ)
    → 0 < b
    → 0 < m
    → b + m ≤ 2 ^ 63
    → (k : ℕ) × (bytes_to_segments (pos b) (pos m) ≡ pos k) × (b ≤ k * m) × (k * m < b + m)
unfolding bytes_to_segments
bytes_to_segments_ceil zero m hb hm h = absurd (omega arith)
bytes_to_segments_ceil (suc b) zero hb hm h = absurd (omega arith)
bytes_to_segments_ceil (suc b) (suc m) hb hm h =
    ((b + suc m) / suc m, ground arith, (ceil_bounds b m).0, (ceil_bounds b m).1)
