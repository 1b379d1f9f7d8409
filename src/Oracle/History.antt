-- ===== src/Oracle/History.antt =====
-- The history that `buildDeps` of services/oracle/src/server.ts gives the anomaly tool.
use solva.Prelude.{◌≡◌, refl, List, [], none}
use solva.Prelude.Text.{Text}
use solva.Prelude.Effect.{Result, ok, err}
use solva.SharedTypes.{Proof}
use solva.Anomaly.{AnomalyFlag}
use solva.Anomaly.Totality.{detect_anomalies_singleton}
use solva.Sdk.{Network, Thrown}
use solva.Sdk.Orchestrator.{Platform}
use solva.Sdk.Registry.{Contract}
use solva.Sdk.Client.{Session, new_solva, get_latest_proof}
use solva.Oracle.{Environment, get_anomalies, build_deps}

-- The flags of one call, whatever the world holds: none, or a thrown value.
abbrev pub IsBlank : Result Thrown (List AnomalyFlag) → Type 0
IsBlank (ok flags) = flags ≡ []
IsBlank (err e) = Unit {0}

-- Over the SDK's one-proof history the anomaly tool never lists a flag: it answers the empty list
-- or throws.
pub get_anomalies-IsBlank :
    {W : Type 0} (platform : Platform W) (contract : Contract W) (env : Environment)
    (network : Network) (institution : Text) (w : W)
    → IsBlank (get_anomalies (build_deps platform contract env network) institution w).0
unfolding get_anomalies build_deps
get_anomalies-IsBlank {W} platform contract env network institution w =
    go (get_latest_proof platform contract start).0 refl
  where
    start : Session W
    start = record {
      world = w;
      solva =
          new_solva
            (record { network = network; tenant = institution; endpoints = none; api_key = none });
    }

    go :
        (x : Result Thrown Proof)
        → (get_latest_proof platform contract start).0 ≡ x
        → IsBlank (get_anomalies (build_deps platform contract env network) institution w).0
    go (ok latest) k = simp (k, detect_anomalies_singleton) refl
    go (err e) k = simp k tt
