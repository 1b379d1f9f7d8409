-- ===== src/Console/Dashboard.antt =====
-- The dashboard of an institution: apps/web/src/lib/dashboard/provider.tsx with lib/mock/dashboard.ts.
-- The clock and the printing of an id in base 36 are parameters; waits of one kind are equally long,
-- so connections end in their order. Numbers of the code are exact on the totals that occur.
pub mod Log
pub mod Dialog
mod Examples
use solva.Prelude.{
  ℕ, ◌+◌, ◌-◌, ◌*◌, ◌%◌, ◌/◌, Bool, true, false, List, [], ◌∷◌, ◌++◌, Option, none, some,
  if◌then◌else◌,
}
use solva.Prelude.Text.{Text, codes, value, print_nat, is_truthy}
use solva.SharedTypes.{SolvencyStatus, solvent}
use solva.Console.Format.{SourceType, attested, onchain, Source, CycleRecord, DashboardData}

pub data Schedule : Type 0 where
  manual hourly daily : Schedule

pub record SourceConfig : Type 0 where
  pub type : SourceType
  pub label : Text
  pub settings : Text

unfoldable pub cycle : Text → ℕ → Text → Text → ℕ → CycleRecord
cycle proof_id at reserves_total liabilities_total duration_ms = record {
  id = codes "cyc_" ++ proof_id;
  proof_id = proof_id;
  at = at;
  status = solvent;
  reserves_total = reserves_total;
  liabilities_total = liabilities_total;
  duration_ms = duration_ms;
}

-- `now` is a time in seconds.
unfoldable pub initial_dashboard : ℕ → DashboardData
unfolding cycle
initial_dashboard now = record {
  sources =
      record {
        id = codes "src_kestrel";
        type = attested;
        label = codes "Kestrel Custody";
        detail = codes "Signed balance · account ••4821";
        connected_at = now - 86400 * 9;
      }
      ∷ record {
        id = codes "src_treasury";
        type = onchain;
        label = codes "Treasury wallet";
        detail = codes "On-chain · GBQ…7XF";
        connected_at = now - 86400 * 9;
      }
      ∷ [];
  cycles =
      cycle (codes "1042") (now - 130) (codes "12400000") (codes "11980000") 1820
      ∷ cycle (codes "1041") (now - 5400) (codes "12310000") (codes "11940000") 1760
      ∷ cycle (codes "1038") (now - 92000) (codes "12100000") (codes "11890000") 1910
      ∷ cycle (codes "1035") (now - 180000) (codes "12050000") (codes "10000000") 1880
      ∷ [];
}

abbrev or_text : Text → Text → Text
or_text settings otherwise = if is_truthy settings then settings else otherwise

detail_of : SourceType → Text → Text
detail_of attested settings =
    codes "Signed balance · " ++ or_text settings (codes "account connected")
detail_of onchain settings = codes "On-chain · " ++ or_text settings (codes "wallet connected")

-- `now_ms` is a time in milliseconds.
unfoldable pub connect_source_mock : (ℕ → Text) → SourceConfig → ℕ → Source
unfolding detail_of
connect_source_mock to_base_36 config now_ms = record {
  id = codes "src_" ++ to_base_36 now_ms;
  type = config.type;
  label = config.label;
  detail = detail_of config.type config.settings;
  connected_at = now_ms / 1000;
}

next_proof_id : Option CycleRecord → Text
next_proof_id none = codes "1043"
next_proof_id (some previous) = print_nat (value previous.proof_id + 1)

base_reserves : Option CycleRecord → ℕ
base_reserves none = 12400000
base_reserves (some previous) = value previous.reserves_total

base_liabilities : Option CycleRecord → ℕ
base_liabilities none = 11980000
base_liabilities (some previous) = value previous.liabilities_total

unfoldable pub run_cycle_mock : Option CycleRecord → ℕ → CycleRecord
unfolding next_proof_id base_reserves base_liabilities cycle
run_cycle_mock previous now_ms =
    cycle (next_proof_id previous) (now_ms / 1000) (print_nat (base_reserves previous + 30000))
      (print_nat (base_liabilities previous + 18000))
      (1600 + (value (next_proof_id previous) % 5) * 40)

unfoldable pub latest : List CycleRecord → Option CycleRecord
latest [] = none
latest (first ∷ older) = some first

-- The provider's state, the connections that it awaits, the oldest first, and the cycle that an
-- awaited run was started behind.
pub record Board : Type 0 where
  pub contents : DashboardData
  pub running : Bool
  pub schedule : Schedule
  pub connecting : List SourceConfig
  pub awaited : Option (Option CycleRecord)

unfoldable pub opened : ℕ → Board
opened now = record {
  contents = initial_dashboard now;
  running = false;
  schedule = manual;
  connecting = [];
  awaited = none;
}

-- `connectSource` and `runCycle`, each up to its `await` and behind it.
unfoldable pub connect_source : SourceConfig → Board → Board
connect_source config board = record board { connecting = board.connecting ++ config ∷ [] }

unfoldable pub connected : (ℕ → Text) → ℕ → List SourceConfig → Board → Board
connected to_base_36 now_ms [] board = board
connected to_base_36 now_ms (config ∷ later) board = record board {
  contents = record {
    sources = board.contents.sources ++ connect_source_mock to_base_36 config now_ms ∷ [];
    cycles = board.contents.cycles;
  };
  connecting = later;
}

unfoldable pub run_cycle : Board → Board
unfolding latest
run_cycle board = record board { running = true; awaited = some (latest board.contents.cycles) }

unfoldable pub cycle_added : ℕ → Option (Option CycleRecord) → Board → Board
cycle_added now_ms none board = board
cycle_added now_ms (some previous) board = record board {
  contents = record {
    sources = board.contents.sources;
    cycles = run_cycle_mock previous now_ms ∷ board.contents.cycles;
  };
  running = false;
  awaited = none;
}

unfoldable pub set_schedule : Schedule → Board → Board
set_schedule schedule board = record board { schedule = schedule }
