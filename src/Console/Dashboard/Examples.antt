-- ===== src/Console/Dashboard/Examples.antt =====
-- The dashboard: an owner runs a cycle, and connects an account.
use solva.Prelude.{◌≡◌, refl, ℕ, true, List, [], ◌∷◌}
use mathlib.Core.List.{mem-cons_self}
use solva.Prelude.Text.{Text, codes, text_eq, value, print_nat, digits}
use solva.Console.Format.{CycleRecord}
use solva.Console.Operator.{owner, can, matrix}
use solva.Console.Dashboard.{
  Board, opened, run_cycle, cycle_added, initial_dashboard, run_cycle_mock, latest, cycle,
}
use solva.Console.Dashboard.Log.{Reached, opening, runs, run_ends, IsLog, cycles-IsLog}
use solva.Console.Dashboard.Dialog as Dialog
use solva.Console.Dashboard.Dialog.{
  custodians, Dialog, choose_custodian, on_open_change, set_step, pick_custodian, finish,
  attested_config,
}
use solva.Console.Dashboard.Dialog.Proper as Proper
use solva.Console.Dashboard.Dialog.Proper.{All, asked-IsProper}

abbrev print_ms : ℕ → Text
print_ms n = codes "x"

abbrev one_run : Board
one_run = cycle_added 5000 (run_cycle (opened 0)).awaited (run_cycle (opened 0))

one_run_reached : Reached print_ms owner one_run
unfolding can matrix text_eq opened
one_run_reached = run_ends 5000 (runs refl refl (opening 0))

cycles-IsLog_example : IsLog one_run.contents.cycles
cycles-IsLog_example = cycles-IsLog print_ms owner one_run one_run_reached

abbrev ids : List CycleRecord → List Text
ids [] = []
ids (c ∷ cycles) = c.proof_id ∷ ids cycles

one_run_ids :
    ids one_run.contents.cycles
    ≡ codes "1043" ∷ codes "1042" ∷ codes "1041" ∷ codes "1038" ∷ codes "1035" ∷ []
unfolding opened run_cycle cycle_added initial_dashboard run_cycle_mock latest cycle value print_nat
    digits
one_run_ids = refl

abbrev authorized : Dialog.Dialog
authorized =
    let picked =
      pick_custodian (codes "Kestrel Custody")
        (set_step choose_custodian (on_open_change true Dialog.opened)) in
    finish (attested_config picked) picked

authorized_reached : Proper.Reached authorized
unfolding Dialog.opened on_open_change set_step pick_custodian
authorized_reached = Proper.authorizes refl refl (
    Proper.picks (codes "Kestrel Custody") refl mem-cons_self
      (Proper.to_custodians refl (Proper.opens true Proper.opening)))

asked-IsProper_example : All authorized.asked
asked-IsProper_example = asked-IsProper authorized authorized_reached
