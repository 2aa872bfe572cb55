-- ===== src/Core/Config/Clock.antt =====
-- core/config.py, the virtual clock and the time domain of observations.
pub mod Laws
use wagmi_bench.Prelude.{
  ℕ, ◌+◌, ◌-◌, ◌*◌, ◌/◌, Bool, true, false, not, ◌||◌, ltb, leb, if◌then◌else◌, List, [], ◌∷◌,
  Result, ok, err, raise_if, ◌>>=◌, ◌>>◌, config_error,
}
use wagmi_bench.Prelude.Int.{ℤ, pos, negsuc}

-- `WEEK_MS` and `MAX_REBASED_TIMESTAMP`
abbrev pub week_ms : ℕ
week_ms = 604_800_000

abbrev pub max_rebased_timestamp : ℕ
max_rebased_timestamp = 99_999_999_999

-- `_required_int` of an integer, with minimum 0.
unfoldable pub required_natural : ℤ → Result ℕ
required_natural (pos n) = ok n
required_natural (negsuc n) = err config_error

unfoldable pub time_rebase_offset_ms : ℤ → Result ℕ
unfolding ◌>>=◌ required_natural
time_rebase_offset_ms window_start_ts = do
  start ← required_natural window_start_ts
  ok (start / week_ms * week_ms)

unfoldable pub rebase_timestamp : ℤ → ℤ → Result ℕ
unfolding ◌>>=◌ required_natural
rebase_timestamp real_ts offset_ms = do
  timestamp ← required_natural real_ts
  offset ← required_natural offset_ms
  raise_if (ltb timestamp offset || ltb max_rebased_timestamp (timestamp - offset)) config_error
  ok (timestamp - offset)

pub record VirtualClock : Type 0 where
  pub real_ts : ℕ
  pub rebase_offset_ms : ℕ

-- The constructor, with `__post_init__`.
unfoldable pub new_clock : ℤ → ℤ → Result VirtualClock
unfolding ◌>>=◌ rebase_timestamp
new_clock real_ts rebase_offset_ms = do
  real ← required_natural real_ts
  offset ← required_natural rebase_offset_ms
  rebased ← rebase_timestamp real_ts rebase_offset_ms
  ok (record { real_ts = real; rebase_offset_ms = offset })

unfoldable pub for_window : ℤ → ℤ → Result VirtualClock
unfolding ◌>>=◌ new_clock time_rebase_offset_ms
for_window window_start_ts real_ts = do
  offset ← time_rebase_offset_ms window_start_ts
  new_clock real_ts (pos offset)

unfoldable pub rebased_ts : VirtualClock → Result ℕ
unfolding rebase_timestamp
rebased_ts c = rebase_timestamp (pos c.real_ts) (pos c.rebase_offset_ms)

unfoldable pub advance_to : VirtualClock → ℤ → Result VirtualClock
unfolding ◌>>=◌ new_clock
advance_to c real_ts = do
  next ← required_natural real_ts
  raise_if (ltb next c.real_ts) config_error
  new_clock (pos next) (pos c.rebase_offset_ms)

-- A run of the clock through timestamps.
unfoldable pub advance_all : VirtualClock → List ℤ → Result VirtualClock
unfolding ◌>>=◌ advance_to
advance_all c [] = ok c
advance_all c (ts ∷ rest) = do c ← advance_to c ts; advance_all c rest
