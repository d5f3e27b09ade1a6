-- ===== src/Metrics/Ring.antt =====
-- RingBuffer of internal/metrics/ring_buffer.go.
pub mod History
use nexspence_demo.Prelude.{
  List, [], get_or, if◌then◌else◌, ltb, replicate, set, suc, zero, ℕ, ◌%◌, ◌+◌, ◌-◌, ◌∷◌,
}

abbrev pub ring_size : ℕ
ring_size = 360

pub record DataPoint : Type 0 where
  pub timestamp : ℕ
  pub requests_total : ℕ
  pub request_errors : ℕ
  pub artifacts_stored : ℕ
  pub bytes_stored : ℕ
  pub downloads_total : ℕ
  pub goroutines : ℕ

abbrev pub zero_point : DataPoint
zero_point = record {
  timestamp = 0;
  requests_total = 0;
  request_errors = 0;
  artifacts_stored = 0;
  bytes_stored = 0;
  downloads_total = 0;
  goroutines = 0;
}

-- `points` is the array `data`.
pub record RingBuffer : Type 0 where
  pub points : List DataPoint
  pub head : ℕ
  pub size : ℕ

pub empty_ring : RingBuffer
empty_ring = record { points = replicate ring_size zero_point; head = 0; size = 0 }

unfoldable pub add : RingBuffer → DataPoint → RingBuffer
add r p = record {
  points = set r.points r.head p;
  head = (r.head + 1) % ring_size;
  size = if ltb r.size ring_size then r.size + 1 else r.size;
}

-- The copying loop of Snapshot, for the `n` rounds left from round `i`.
unfoldable pub collect : List DataPoint → ℕ → ℕ → ℕ → List DataPoint
collect points start zero i = []
collect points start (suc n) i =
    get_or points ((start + i) % ring_size) zero_point ∷ collect points start n (i + 1)

-- `head - size + ringSize` with the addition first, so that it stays a natural number.
unfoldable pub snapshot : RingBuffer → List DataPoint
unfolding collect
snapshot r = collect r.points ((r.head + ring_size - r.size) % ring_size) r.size 0
