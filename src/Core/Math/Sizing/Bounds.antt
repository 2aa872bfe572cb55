-- ===== src/Core/Math/Sizing/Bounds.antt =====
-- The split of an order by the participation cap, and the size of a leverage target.
use wagmi_bench.Prelude.{◌≡◌, refl, ◌∙◌, arith, ok, Returns, Returns-eq-ok}
use wagmi_bench.Prelude.Int.{ℤ, pos, ◌+ℤ◌, ◌-ℤ◌, ◌*ℤ◌, min_ℤ, ◌≤ℤ◌, ◌<ℤ◌, int_laws}
use wagmi_bench.Prelude.Int.Laws.{//_nonneg, mul_nonneg, mul_mono, parts_of_eq}
use wagmi_bench.Core.Models.{FillQuantity, check_quantity}
use wagmi_bench.Core.Math.Rounding.{fraction, floor_fraction, floor_to_step}
use wagmi_bench.Core.Math.Rounding.Bounds.{
  IsStepRounded, floor_to_step-IsStepRounded, floor_fraction-IsFloor,
}
use wagmi_bench.Core.Math.Sizing.{participation_capacity_base_1e8, participation_fill}

pub min-le_left : (a b : ℤ) → min_ℤ a b ≤ℤ a
min-le_left a b = ground arith

pub min-le_right : (a b : ℤ) → min_ℤ a b ≤ℤ b
min-le_right a b = ground arith

pub le-min : (a b c : ℤ) → c ≤ℤ a → c ≤ℤ b → c ≤ℤ min_ℤ a b
le-min a b c h k = ground arith

-- What `check_quantity` tests.
pub record IsSplit (q : FillQuantity) : Type 0 where
  pub capacity_nonneg : pos 0 ≤ℤ q.capacity_qty_base_1e8
  pub filled_nonneg : pos 0 ≤ℤ q.filled_qty_base_1e8
  pub cancelled_nonneg : pos 0 ≤ℤ q.cancelled_qty_base_1e8
  pub filled-le-capacity : q.filled_qty_base_1e8 ≤ℤ q.capacity_qty_base_1e8
  pub sums : q.filled_qty_base_1e8 +ℤ q.cancelled_qty_base_1e8 ≡ q.requested_qty_base_1e8

requested_nonneg : (q : FillQuantity) → IsSplit q → pos 0 ≤ℤ q.requested_qty_base_1e8
requested_nonneg q s = omega (int_laws, parts_of_eq _ _ s.sums, s.filled_nonneg, s.cancelled_nonneg)

pub check_quantity-IsSplit : (q : FillQuantity) → IsSplit q → check_quantity q ≡ ok q
unfolding check_quantity
check_quantity-IsSplit q s = rw s.sums (ground (arith, requested_nonneg q s))

-- The capacity of a bar: what the cap leaves of its volume, never more.
abbrev pub IsCapacity : ℤ → ℤ → ℤ → ℤ → Type 0
IsCapacity volume cap scale x = (pos 0 ≤ℤ x) × (x *ℤ scale ≤ℤ volume *ℤ cap)

-- What a fill promises of its quantities.
pub record IsCappedFill (volume cap step scale requested : ℤ) (q : FillQuantity) : Type 0 where
  pub asked : q.requested_qty_base_1e8 ≡ requested
  pub split : IsSplit q
  pub capacity : IsCapacity volume cap scale q.capacity_qty_base_1e8
  pub whole_steps : (count : ℤ) × (q.filled_qty_base_1e8 ≡ count *ℤ step)

module _ (volume cap step scale : ℤ) (v : pos 0 ≤ℤ volume) (c : pos 0 ≤ℤ cap) (c_le : cap ≤ℤ scale)
    (st : pos 0 <ℤ step) (sc : pos 0 <ℤ scale) where
  raw_capacity : ℤ
  raw_capacity = floor_fraction (fraction (volume *ℤ cap) scale)

  raw_capacity_nonneg : pos 0 ≤ℤ raw_capacity
  unfolding raw_capacity floor_fraction
  raw_capacity_nonneg = //_nonneg (volume *ℤ cap) scale (mul_nonneg volume cap v c) (omega arith)

  raw_capacity-mul : raw_capacity *ℤ scale ≤ℤ volume *ℤ cap
  unfolding raw_capacity
  raw_capacity-mul = (floor_fraction-IsFloor (volume *ℤ cap) scale sc).0

  rounded-IsCapacity : (x : ℤ) → IsStepRounded raw_capacity step x → IsCapacity volume cap scale x
  rounded-IsCapacity x r =
      let (low, high, _) = r.above raw_capacity_nonneg in
      (low, omega (arith, mul_mono x raw_capacity scale high (omega arith), raw_capacity-mul))

  participation_capacity_lem :
      participation_capacity_base_1e8 volume cap step scale ≡ floor_to_step raw_capacity step
  unfolding participation_capacity_base_1e8 raw_capacity
  participation_capacity_lem = ground arith

  participation-IsCapacity :
      (x : ℤ) × (participation_capacity_base_1e8 volume cap step scale ≡ ok x)
      × IsCapacity volume cap scale x
  participation-IsCapacity =
      let (x, e, r) =
        Returns-eq-ok (IsStepRounded raw_capacity step) (floor_to_step raw_capacity step)
          (floor_to_step-IsStepRounded step st raw_capacity) in
      (x, participation_capacity_lem ∙ e, rounded-IsCapacity x r)

  split_of :
      (requested capacity filled : ℤ)
      → pos 0 ≤ℤ requested
      → IsCapacity volume cap scale capacity
      → IsStepRounded (min_ℤ requested capacity) step filled
      → IsCappedFill volume cap step scale requested (record {
        requested_qty_base_1e8 = requested;
        capacity_qty_base_1e8 = capacity;
        filled_qty_base_1e8 = filled;
        cancelled_qty_base_1e8 = requested -ℤ filled;
      })
  split_of requested capacity filled r k f =
      let (low, high, _) = f.above (le-min requested capacity (pos 0) r k.0) in
      record {
        asked = refl;
        split = record {
          capacity_nonneg = k.0;
          filled_nonneg = low;
          cancelled_nonneg = omega (int_laws, min-le_left requested capacity);
          filled-le-capacity = omega (arith, min-le_right requested capacity);
          sums = omega int_laws;
        };
        capacity = k;
        whole_steps = (f.count, f.multiple);
      }

  -- For a request, a volume and a cap from zero up, a cap of at most the scale, and a positive step
  -- and scale, `participation_fill` returns a split of the request into a filled and a cancelled
  -- quantity from zero up; the filled quantity is a multiple of the step within the capacity, and
  -- the capacity is at most the capped share of the volume.
  pub participation_fill-IsCappedFill :
      (requested : ℤ)
      → pos 0 ≤ℤ requested
      → Returns
          (IsCappedFill volume cap step scale requested)
          (participation_fill requested volume cap step scale)
  unfolding participation_fill
  participation_fill-IsCappedFill requested r =
      let (capacity, e, k) = participation-IsCapacity in
      let (filled, e', f) =
        Returns-eq-ok (IsStepRounded (min_ℤ requested capacity) step)
          (floor_to_step (min_ℤ requested capacity) step)
          (floor_to_step-IsStepRounded step st (min_ℤ requested capacity)) in
      let good = split_of requested capacity filled r k f in
      ground (arith, e, e', good, check_quantity-IsSplit _ good.split)
