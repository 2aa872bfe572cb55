-- ===== src/Core/Engine/Ledger/Rows.antt =====
-- The ledger of a run, and what its rows attribute.
use wagmi_bench.Prelude.{
  ◌≡◌, refl, arith, Bool, none, some, List, [], ◌∷◌, All, All-reverse_onto, ok, Ensures-eq-ok,
  ◌>>=◌,
}
use wagmi_bench.Prelude.Int.{ℤ, pos, ◌+ℤ◌, ◌-ℤ◌, int_laws}
use wagmi_bench.Prelude.Int.Laws.{parts_of_eq}
use wagmi_bench.Core.Models.{LedgerDelta, attributed_nav_micro}
use wagmi_bench.Core.Engine.State.{Snapshot, Run}
use wagmi_bench.Core.Engine.Episode.{Profile, run_turns, snapshots}
use wagmi_bench.Core.Engine.Ledger.{LedgerRow, delta_of, row_of, check_row, ledger_rows}
use wagmi_bench.Core.Engine.Ledger.Balance.{IsBooked, Balanced}
use wagmi_bench.Core.Engine.Ledger.Conservation.{run_turns-Balanced}

-- The row's change in NAV is the sum of its four attributions.
abbrev pub IsAttributed : LedgerDelta → Type 0
IsAttributed d = d.d_nav_micro ≡ attributed_nav_micro d

first_row-IsAttributed : (s : Snapshot) → IsAttributed (delta_of none s)
unfolding delta_of attributed_nav_micro
first_row-IsAttributed s = omega int_laws

next_row-IsAttributed :
    (start : ℤ) (previous s : Snapshot)
    → IsBooked start previous
    → IsBooked start s
    → IsAttributed (delta_of (some previous) s)
unfolding delta_of attributed_nav_micro
next_row-IsAttributed start previous s h k = omega (
  int_laws,
  parts_of_eq _ _ h.nav,
  parts_of_eq _ _ h.cash,
  parts_of_eq _ _ k.nav,
  parts_of_eq _ _ k.cash,
)

check_row-ok : (d : LedgerDelta) → IsAttributed d → check_row d ≡ ok tt
unfolding check_row attributed_nav_micro
check_row-ok d h = ground (arith, h)

-- The NAV that the rows report as gained.
unfoldable pub total_nav : List LedgerRow → ℤ
total_nav [] = pos 0
total_nav (row ∷ rows) = row.delta.d_nav_micro +ℤ total_nav rows

-- The last NAV of a chronicle.
unfoldable pub final_nav : ℤ → List Snapshot → ℤ
final_nav nav [] = nav
final_nav nav (s ∷ rest) = final_nav s.nav_micro rest

abbrev pub Accounts : ℤ → List Snapshot → List LedgerRow → Type 0
Accounts nav rest rows =
    All (λ (row : LedgerRow). IsAttributed row.delta) rows
    × (total_nav rows ≡ final_nav nav rest -ℤ nav)

nav_step :
    (previous s : Snapshot) (total final : ℤ)
    → total ≡ final -ℤ s.nav_micro
    → (delta_of (some previous) s).d_nav_micro +ℤ total ≡ final -ℤ previous.nav_micro
unfolding delta_of
nav_step previous s total final e = omega (int_laws, parts_of_eq _ _ e)

next_rows-Accounts :
    (start : ℤ) (previous : Snapshot) (rest : List Snapshot)
    → IsBooked start previous
    → All (IsBooked start) rest
    → (rows : List LedgerRow) × (ledger_rows (some previous) rest ≡ ok rows)
      × Accounts previous.nav_micro rest rows
unfolding ledger_rows total_nav final_nav ◌>>=◌
next_rows-Accounts start previous [] h k = ([], refl, (tt, omega int_laws))
next_rows-Accounts start previous (s ∷ rest) h k =
    let attributed = next_row-IsAttributed start previous s h k.0 in
    let (rows, e, more) = next_rows-Accounts start s rest k.0 k.1 in
    (
      row_of (some previous) s ∷ rows,
      rw (check_row-ok (delta_of (some previous) s) attributed, e),
      (
        (attributed, more.0),
        nav_step previous s (total_nav rows) (final_nav s.nav_micro rest) more.1,
      ),
    )

-- The change in NAV from the first snapshot to the last.
unfoldable pub nav_change : List Snapshot → ℤ
nav_change [] = pos 0
nav_change (first ∷ rest) = final_nav first.nav_micro rest -ℤ first.nav_micro

abbrev pub Explains : List Snapshot → List LedgerRow → Type 0
Explains chronicle rows =
    All (λ (row : LedgerRow). IsAttributed row.delta) rows × (total_nav rows ≡ nav_change chronicle)

ledger_rows-Explains :
    (start : ℤ) (chronicle : List Snapshot)
    → All (IsBooked start) chronicle
    → (rows : List LedgerRow) × (ledger_rows none chronicle ≡ ok rows) × Explains chronicle rows
unfolding ledger_rows nav_change total_nav ◌>>=◌ delta_of
ledger_rows-Explains start [] h = ([], refl, (tt, refl))
ledger_rows-Explains start (first ∷ rest) h =
    let (rows, e, more) = next_rows-Accounts start first rest h.0 h.1 in
    (
      row_of none first ∷ rows,
      rw (check_row-ok (delta_of none first) (first_row-IsAttributed first), e),
      ((first_row-IsAttributed first, more.0), omega (int_laws, parts_of_eq _ _ more.1)),
    )

snapshots-IsBooked :
    (start : ℤ) (run : Run) → Balanced start run → All (IsBooked start) (snapshots run)
unfolding snapshots
snapshots-IsBooked start run h =
    All-reverse_onto (IsBooked start) (run.latest ∷ run.earlier) [] (h.latest, h.earlier) tt

-- For every run that returns, `_ledger_rows` succeeds: no row fails its MATH-2 test, each row's
-- change in NAV is the sum of its price, funding, fee and penalty parts, and the changes of the
-- rows add up to the NAV of the last snapshot minus that of the first.
pub run_turns-ledger :
    (p : Profile) (collect : Bool) (run : Run)
    → run_turns p collect ≡ ok run
    → (rows : List LedgerRow) × (ledger_rows none (snapshots run) ≡ ok rows)
      × Explains (snapshots run) rows
run_turns-ledger p collect run e =
    let start = p.config.starting_nav_micro in
    ledger_rows-Explains start (snapshots run) (
      snapshots-IsBooked start run (
        Ensures-eq-ok (Balanced start) (run_turns p collect) (run_turns-Balanced p collect).holds
          e))
