-- ===== src/Sdk/Examples.antt =====
-- Runs of the SDK against the sample platform, and its theorems at them.
use solva.Prelude.{ℕ, ◌≡◌, refl, true, [], ◌∷◌, none, some, arith}
use solva.Prelude.Int.{pos}
use solva.Prelude.Text.{Text, codes, print_nat}
use solva.Prelude.BigInt.{parse_bigint}
use solva.Prelude.Effect.{Result, ok, err}
use solva.Sdk.{Thrown, orchestrator_error, resolve_config, defaults}
use solva.Sdk.Orchestrator.{
  Orchestrator, request, InclusionRefDto, inclusion_ref_of, path_node_of, get_tenant_contract,
}
use solva.Sdk.Orchestrator.Errors.{Explains, sent, request-Explains}
use solva.Sdk.Registry.{InclusionCall, inclusion_call}
use solva.Sdk.Registry.Hex.{hex_to_buffer, buffer_to_hex, hex_to_buffer-buffer_to_hex}
use solva.Sdk.Registry.Inclusion.{CarriesAll, inclusion_call-CarriesAll}
use solva.Sdk.Chain.{ChainClient, new_chain_client}
use solva.Sdk.Client.{Session, new_solva, resolve_chain}
use solva.Sdk.Client.History.{cycle, on_chain_latest, Keeps, run, run-Keeps}
use solva.Sdk.Sample.{sample_platform, refusing_platform, sample_contract, sample_config}

abbrev fresh : Session ℕ
fresh = record { world = 0; solva = new_solva sample_config }

abbrev client : ChainClient
client = record {
  registry = record {
    contract_id = codes "C1";
    rpc_url = (new_solva sample_config).endpoints.rpc_url;
    network_passphrase = (new_solva sample_config).endpoints.network_passphrase;
  };
}

abbrev bound : Session ℕ
bound = record { world = 1; solva = record (new_solva sample_config) { chain = some client } }

resolved : resolve_chain sample_platform sample_contract fresh ≡ (ok client, bound)
unfolding resolve_chain new_solva get_tenant_contract request new_chain_client resolve_config
    defaults
resolved = refl

run-Keeps_example :
    Keeps fresh.solva
      (run sample_platform sample_contract
        (on_chain_latest ∷ cycle ∷ on_chain_latest ∷ [])
        fresh).solva
unfolding new_solva
run-Keeps_example =
    run-Keeps sample_platform sample_contract (on_chain_latest ∷ cycle ∷ on_chain_latest ∷ []) fresh
      tt

abbrev keyless : Orchestrator
keyless = record { base_url = codes "http://o"; tenant = codes "t1"; api_key = none }

abbrev as_text : Text → Result Text Text
as_text t = ok t

abbrev refusal : Thrown
refusal = orchestrator_error (codes "GET /p returned 503: ") 503

refused :
    request refusing_platform keyless as_text (codes "GET") (codes "/p") none 0 ≡ (err refusal, 1)
unfolding request print_nat
refused = refl

request-Explains_example :
    Explains (refusing_platform.fetch (sent keyless (codes "GET") (codes "/p") none) 0).0 refusal
request-Explains_example =
    request-Explains refusing_platform keyless as_text (codes "GET") (codes "/p") none 0 1 refusal
      refused

abbrev dto : InclusionRefDto
dto = record {
  proof_id = codes "7";
  customer_id_hash = codes "01";
  balance = codes "5";
  root_hash = codes "ab";
  path = record { hash = codes "0a"; sum = codes "12"; sibling_is_left = true } ∷ [];
}

abbrev call : InclusionCall
call = record {
  id = pos 7;
  id_hash = 1 ∷ [];
  balance = pos 5;
  path = record { hash = 10 ∷ []; sibling_is_left = true; sum = pos 12 } ∷ [];
}

built : inclusion_call (inclusion_ref_of dto) ≡ some call
unfolding inclusion_call inclusion_ref_of path_node_of hex_to_buffer parse_bigint
built = refl

inclusion_call-CarriesAll_example : CarriesAll dto.path call.path
inclusion_call-CarriesAll_example = inclusion_call-CarriesAll dto call built

hex_to_buffer-buffer_to_hex_example : hex_to_buffer (buffer_to_hex (0 ∷ 171 ∷ [])) ≡ 0 ∷ 171 ∷ []
hex_to_buffer-buffer_to_hex_example =
    hex_to_buffer-buffer_to_hex (0 ∷ 171 ∷ []) (omega arith, (omega arith, tt))
