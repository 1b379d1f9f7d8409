-- ===== src/Sdk/Sample.antt =====
-- A platform and a contract for the examples: every request is answered, and the world counts them.
use solva.Prelude.{ℕ, ◌+◌, true, [], ◌∷◌, some, none}
use solva.Prelude.Int.{pos}
use solva.Prelude.Text.{codes}
use solva.Prelude.Effect.{ok}
use solva.SharedTypes.{Proof}
use solva.Sdk.{testnet, SolvaConfig}
use solva.Sdk.Orchestrator.{Platform}
use solva.Sdk.Registry.{Contract, GeneratedProofMeta}

abbrev pub sample_proof : Proof
sample_proof = record {
  id = codes "7";
  proof = codes "ab";
  public_inputs = record {
    reserves_total = codes "1200";
    liabilities_total = codes "1000";
    root_hash = codes "ab";
    prev_reserves = codes "0";
  };
  published_at = 5;
}

abbrev pub sample_platform : Platform ℕ
sample_platform = record {
  fetch = λ req w. (ok (record { status = 200; body = some [] }), w + 1);
  proof_of = λ t. ok sample_proof;
  inclusion_of = λ t. ok (record {
    proof_id = codes "7";
    customer_id_hash = codes "01";
    balance = codes "5";
    root_hash = codes "ab";
    path = record { hash = codes "0a"; sum = codes "12"; sibling_is_left = true } ∷ [];
  });
  contract_of = λ t. ok (record { contract_id = codes "C1"; network = codes "testnet" });
  id_of = λ t. ok (record { id = codes "9" });
  encode = λ t. t;
}

-- A platform whose every request is refused.
abbrev pub refusing_platform : Platform ℕ
refusing_platform = record sample_platform {
  fetch = λ req w. (ok (record { status = 503; body = none }), w + 1);
}

abbrev pub sample_meta : GeneratedProofMeta
sample_meta = record { root_h = 171 ∷ []; r = pos 1200; l = pos 1000; timestamp = 5 }

abbrev pub sample_contract : Contract ℕ
sample_contract = record {
  get_latest_proof = λ options w. (ok sample_meta, w + 1);
  get_proof = λ options id w. (ok sample_meta, w + 1);
  verify_inclusion = λ options call w. (ok true, w + 1);
}

abbrev pub sample_config : SolvaConfig
sample_config = record {
  network = testnet;
  tenant = codes "t1";
  endpoints = none;
  api_key = some (codes "k");
}
