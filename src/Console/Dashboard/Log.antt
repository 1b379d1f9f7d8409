-- ===== src/Console/Dashboard/Log.antt =====
-- The log of cycles that the provider of dashboard/provider.tsx keeps.
use solva.Prelude.{
  ℕ, ◌+◌, ◌<◌, ◌≤◌, ◌≡◌, refl, sym, ap, ◌∙◌, true, false, List, [], ◌∷◌, Option, none, some, arith,
}
use mathlib.Core.Path.{subst}
use solva.Prelude.Text.{Text, value, value_from, print_nat}
use solva.Prelude.BigInt.RoundTrip.{value-print_nat}
use solva.SharedTypes.{solvent}
use solva.Console.Format.{CycleRecord}
use solva.Console.Operator.{OperatorRole, can, source_connect, cycle_run}
use solva.Console.Dashboard.{
  Schedule, SourceConfig, cycle, initial_dashboard, run_cycle_mock, next_proof_id, base_reserves,
  base_liabilities, latest, Board, opened, connect_source, connected, run_cycle, cycle_added,
  set_schedule,
}

-- What an operator of a role does where the role may, and what is answered.
pub data Reached (to_base_36 : ℕ → Text) (role : OperatorRole) : Board → Type 0 where
  opening : (now : ℕ) → Reached to_base_36 role (opened now)
  connects :
      {board : Board} (config : SourceConfig)
      → can role source_connect ≡ true
      → Reached to_base_36 role board
      → Reached to_base_36 role (connect_source config board)
  connection_ends :
      {board : Board} (now_ms : ℕ)
      → Reached to_base_36 role board
      → Reached to_base_36 role (connected to_base_36 now_ms board.connecting board)
  runs :
      {board : Board}
      → can role cycle_run ≡ true
      → board.running ≡ false
      → Reached to_base_36 role board
      → Reached to_base_36 role (run_cycle board)
  run_ends :
      {board : Board} (now_ms : ℕ)
      → Reached to_base_36 role board
      → Reached to_base_36 role (cycle_added now_ms board.awaited board)
  schedules :
      {board : Board} (schedule : Schedule)
      → can role cycle_run ≡ true
      → Reached to_base_36 role board
      → Reached to_base_36 role (set_schedule schedule board)

-- A cycle that was published as solvent, with reserves that cover the liabilities.
abbrev pub IsCovered : CycleRecord → Type 0
IsCovered c = (c.status ≡ solvent) × (value c.liabilities_total ≤ value c.reserves_total)

-- The newest first: each cycle is covered, and its proof's number lies above that of the one
-- behind it.
abbrev pub IsLog : List CycleRecord → Type 0
IsLog [] = Unit {0}
IsLog (c ∷ []) = IsCovered c
IsLog (c ∷ d ∷ older) = IsCovered c × (value d.proof_id < value c.proof_id) × IsLog (d ∷ older)

-- A run is awaited exactly while the flag says so, and was started behind the newest cycle.
abbrev Waits : Option (Option CycleRecord) → Board → Type 0
Waits none board = board.running ≡ false
Waits (some previous) board = (board.running ≡ true) × (previous ≡ latest board.contents.cycles)

abbrev Inv : Board → Type 0
Inv board = IsLog board.contents.cycles × Waits board.awaited board

Waits-kept :
    (awaited : Option (Option CycleRecord)) (board board' : Board)
    → board'.running ≡ board.running
    → board'.contents.cycles ≡ board.contents.cycles
    → Waits awaited board
    → Waits awaited board'
Waits-kept none board board' running cycles h = running ∙ h
Waits-kept (some previous) board board' running cycles h =
    (running ∙ h.0, h.1 ∙ ap latest (sym cycles))

value-print : (n : ℕ) → value (print_nat n) ≡ n
unfolding value
value-print n = value-print_nat n

run_cycle_mock-IsLog :
    (now_ms : ℕ) (cycles : List CycleRecord)
    → IsLog cycles
    → IsLog (run_cycle_mock (latest cycles) now_ms ∷ cycles)
unfolding run_cycle_mock latest cycle next_proof_id base_reserves base_liabilities
run_cycle_mock-IsLog now_ms [] log =
    (refl, omega (arith, value-print (12400000 + 30000), value-print (11980000 + 18000)))
run_cycle_mock-IsLog now_ms (c ∷ []) log = (
  (
    refl,
    omega (
      arith,
      value-print (value c.reserves_total + 30000),
      value-print (value c.liabilities_total + 18000),
      log.1,
    ),
  ),
  omega (arith, value-print (value c.proof_id + 1)),
  log,
)
run_cycle_mock-IsLog now_ms (c ∷ d ∷ older) log = (
  (
    refl,
    omega (
      arith,
      value-print (value c.reserves_total + 30000),
      value-print (value c.liabilities_total + 18000),
      log.0.1,
    ),
  ),
  omega (arith, value-print (value c.proof_id + 1)),
  log,
)

opened-Inv : (now : ℕ) → Inv (opened now)
unfolding opened initial_dashboard cycle value value_from
opened-Inv now = ground arith

connected-Inv :
    (to_base_36 : ℕ → Text) (now_ms : ℕ) (configs : List SourceConfig) (board : Board)
    → Inv board
    → Inv (connected to_base_36 now_ms configs board)
unfolding connected
connected-Inv to_base_36 now_ms [] board inv = inv
connected-Inv to_base_36 now_ms (config ∷ later) board inv = (
  inv.0,
  Waits-kept board.awaited board (connected to_base_36 now_ms (config ∷ later) board) refl refl
      inv.1,
)

cycle_added-Inv :
    (now_ms : ℕ) (awaited : Option (Option CycleRecord)) (board : Board)
    → board.awaited ≡ awaited
    → Inv board
    → Inv (cycle_added now_ms awaited board)
unfolding cycle_added
cycle_added-Inv now_ms none board e inv = inv
cycle_added-Inv now_ms (some previous) board e inv = (
  subst (λ (p : Option CycleRecord). IsLog (run_cycle_mock p now_ms ∷ board.contents.cycles))
      (sym known.1) (run_cycle_mock-IsLog now_ms board.contents.cycles inv.0),
  refl,
)
  where
    known : Waits (some previous) board
    known = subst (λ (w : Option (Option CycleRecord)). Waits w board) e inv.1

Reached-Inv :
    {to_base_36 : ℕ → Text} {role : OperatorRole} {board : Board}
    → Reached to_base_36 role board
    → Inv board
unfolding connect_source run_cycle set_schedule
Reached-Inv (opening now) = opened-Inv now
Reached-Inv (connects {board} config allowed r) = (
  (Reached-Inv r).0,
  Waits-kept board.awaited board (connect_source config board) refl refl (Reached-Inv r).1,
)
Reached-Inv {to_base_36} (connection_ends {board} now_ms r) =
    connected-Inv to_base_36 now_ms board.connecting board (Reached-Inv r)
Reached-Inv (runs allowed idle r) = ((Reached-Inv r).0, (refl, refl))
Reached-Inv (run_ends {board} now_ms r) =
    cycle_added-Inv now_ms board.awaited board refl (Reached-Inv r)
Reached-Inv (schedules {board} schedule allowed r) = (
  (Reached-Inv r).0,
  Waits-kept board.awaited board (set_schedule schedule board) refl refl (Reached-Inv r).1,
)

-- Whatever an operator does and whenever connections and runs end: in the log of cycles each one
-- is solvent and its reserves cover its liabilities, and the numbers of the proofs rise from each
-- to the newer one, so that no two are the same.
pub cycles-IsLog :
    (to_base_36 : ℕ → Text) (role : OperatorRole) (board : Board)
    → Reached to_base_36 role board
    → IsLog board.contents.cycles
cycles-IsLog to_base_36 role board r = (Reached-Inv r).0
