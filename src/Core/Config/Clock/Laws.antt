-- ===== src/Core/Config/Clock/Laws.antt =====
-- core/config.py, a clock that is moved through timestamps, and the times of observations.
use wagmi_bench.Prelude.{
  ℕ, ◌+◌, ◌-◌, ◌*◌, ◌/◌, ◌≤◌, ◌≡◌, refl, ◌∙◌, sym, ap, subst, Bool-cases, inl, inr, ◌||◌, ltb, List,
  [], ◌∷◌, ok, ok-injective, >>=-ok, ◌>>=◌, arith,
}
use wagmi_bench.Prelude.Int.{ℤ, pos, negsuc}
use wagmi_bench.Core.Config.Clock.{
  week_ms, max_rebased_timestamp, VirtualClock, new_clock, for_window, rebased_ts, advance_to,
  advance_all,
}

-- The clock's time lies in the observation domain.
abbrev pub InDomain : VirtualClock → Type 0
InDomain c =
    (c.rebase_offset_ms ≤ c.real_ts) × (c.real_ts - c.rebase_offset_ms ≤ max_rebased_timestamp)

new_clock-ok :
    (real offset : ℕ) (c : VirtualClock)
    → new_clock (pos real) (pos offset) ≡ ok c
    → (c ≡ record { real_ts = real; rebase_offset_ms = offset }) × InDomain c
unfolding new_clock ◌>>=◌
new_clock-ok real offset c e =
    elim (Bool-cases (ltb real offset || ltb max_rebased_timestamp (real - offset))) [
      | inl b ↦ absurd (ground arith)
      | inr b ↦
          let same : record { real_ts = real; rebase_offset_ms = offset } ≡ c =
            ok-injective (ground arith) in
          (sym same, subst InDomain same (ground arith))
    ]

InDomain-rebased_ts :
    (c : VirtualClock) → InDomain c → rebased_ts c ≡ ok (c.real_ts - c.rebase_offset_ms)
unfolding rebased_ts ◌>>=◌
InDomain-rebased_ts c h = ground arith

-- One step.
advance_to-ok :
    (c d : VirtualClock) (ts : ℤ)
    → advance_to c ts ≡ ok d
    → (c.real_ts ≤ d.real_ts) × (d.rebase_offset_ms ≡ c.rebase_offset_ms) × InDomain d
unfolding advance_to ◌>>=◌
advance_to-ok c d (negsuc n) e = cc
advance_to-ok c d (pos n) e = elim (Bool-cases (ltb n c.real_ts)) [
  | inl b ↦ absurd (ground arith)
  | inr b ↦
      let (same, domain) = new_clock-ok n c.rebase_offset_ms d (ground arith) in
      (
        subst (λ x. c.real_ts ≤ x.real_ts) (sym same) (ground arith),
        ap (λ x. x.rebase_offset_ms) same,
        domain,
      )
]

advance_all-ok :
    (c d : VirtualClock) (times : List ℤ)
    → InDomain c
    → advance_all c times ≡ ok d
    → (c.real_ts ≤ d.real_ts) × (d.rebase_offset_ms ≡ c.rebase_offset_ms) × InDomain d
unfolding advance_all
advance_all-ok c d [] h e =
    subst (λ x. (c.real_ts ≤ x.real_ts) × (x.rebase_offset_ms ≡ c.rebase_offset_ms) × InDomain x)
      (ok-injective e) (omega arith, refl, h)
advance_all-ok c d (ts ∷ rest) h e =
    let (next, a, e) = >>=-ok (advance_to c ts) (λ next. advance_all next rest) d e in
    let (l, o, k) = advance_to-ok c next ts a in
    let (l', o', k') = advance_all-ok next d rest k e in (omega arith, o' ∙ o, k')

for_window-ok :
    (window_start_ts real_ts : ℤ) (c : VirtualClock)
    → for_window window_start_ts real_ts ≡ ok c
    → InDomain c × ((weeks : ℕ) × (c.rebase_offset_ms ≡ weeks * week_ms))
unfolding for_window ◌>>=◌
for_window-ok (negsuc s) ts c e = cc
for_window-ok (pos s) (negsuc n) c e = cc
for_window-ok (pos s) (pos n) c e =
    let (same, domain) = new_clock-ok n (s / week_ms * week_ms) c e in
    (domain, (s / week_ms, ap (λ x. x.rebase_offset_ms) same))

-- A clock that was made for a window and then moved through timestamps without an error has moved
-- forward only: its observation time has not decreased, lies in the observation domain, and differs
-- from the pack time by the same whole number of weeks before and after.
pub advance_all-rebased_ts :
    (window_start_ts real_ts : ℤ) (times : List ℤ) (c d : VirtualClock)
    → for_window window_start_ts real_ts ≡ ok c
    → advance_all c times ≡ ok d
    → (before : ℕ) × (after : ℕ) × (weeks : ℕ) × (rebased_ts c ≡ ok before)
      × (rebased_ts d ≡ ok after)
      × (before ≤ after)
      × (after ≤ max_rebased_timestamp)
      × (d.real_ts ≡ after + weeks * week_ms)
      × (c.real_ts ≡ before + weeks * week_ms)
advance_all-rebased_ts window_start_ts real_ts times c d e f =
    let (domain, (weeks, w)) = for_window-ok window_start_ts real_ts c e in
    let (l, o, domain') = advance_all-ok c d times domain f in
    (
      c.real_ts - c.rebase_offset_ms,
      d.real_ts - d.rebase_offset_ms,
      weeks,
      InDomain-rebased_ts c domain,
      InDomain-rebased_ts d domain',
      omega arith,
      domain'.1,
      omega arith,
      omega arith,
    )
