-- ===== src/Oracle/Verdicts.antt =====
-- What an answer of `getSolvency` (services/oracle/src/solvency.ts) means.
use solva.Prelude.{
  ◌≡◌, ◌↔◌, refl, sym, ap, ◌∙◌, Bool, true, false, Option, none, some, arith, if◌then◌else◌,
}
use solva.Prelude.Int.{ℤ, ◌≤ℤ◌}
use solva.Prelude.Text.{Text}
use solva.Prelude.BigInt.{parse_bigint}
use solva.Prelude.Effect.{Result, ok, err, or_else, and_then-eq-ok}
use solva.SharedTypes.{Proof, SolvencyResult, solvent, breach}
use solva.Sdk.{Network, SolvaConfig, Thrown}
use mathlib.Core.Path.{subst}
use solva.Prelude.BigInt.RoundTrip.{parse_bigint-print_bigint}
use solva.Sdk.Orchestrator
use solva.Sdk.Orchestrator.{Platform, Orchestrator}
use solva.Sdk.Registry.{
  ContractClientOptions, Contract, GeneratedProofMeta, ProofMeta, to_proof_meta,
}
use solva.Sdk.Client.{get_on_chain_latest_proof}
use solva.Oracle.Named.{IsMeant, latest_proof-asked, on_chain-IsMeant}
use solva.Oracle.{
  SolvencyDeps, Environment, compare_totals, reserves_cover_liabilities, verdict, solvency_result,
  get_solvency, conclude, judge, sdk_config, on_fresh, check_on_chain, chain_solvency_deps,
  or_syntax_error,
}

some_injective : {A : Type 0} {a b : A} → some a ≡ some b → a ≡ b
some_injective h = cc

-- R ≥ L as integers.
abbrev pub Covers : Text → Text → Type 0
Covers reserves liabilities =
    (r : ℤ) × (l : ℤ) × (parse_bigint reserves ≡ some r)
    × (parse_bigint liabilities ≡ some l)
    × (l ≤ℤ r)

compare_totals-Covers :
    (r l : Option ℤ)
    → compare_totals r l ≡ some true
    → (a : ℤ) × (b : ℤ) × (r ≡ some a) × (l ≡ some b) × (b ≤ℤ a)
unfolding compare_totals
compare_totals-Covers (some r) (some l) h = (r, l, refl, refl, ground arith)
compare_totals-Covers none l h = cc
compare_totals-Covers (some r) none h = cc

reserves_cover-Covers : (r l : Text) → reserves_cover_liabilities r l ≡ some true → Covers r l
unfolding reserves_cover_liabilities
reserves_cover-Covers r l h = compare_totals-Covers (parse_bigint r) (parse_bigint l) h

Covers-reserves_cover : (r l : Text) → Covers r l → reserves_cover_liabilities r l ≡ some true
unfolding reserves_cover_liabilities compare_totals
Covers-reserves_cover r l (a, b, ea, eb, h) = rw (ea, eb) (ground arith)

or_syntax_error-eq-ok : (o : Option Bool) (b : Bool) → or_syntax_error o ≡ ok b → o ≡ some b
or_syntax_error-eq-ok none b h = cc
or_syntax_error-eq-ok (some c) b h = ground arith

verdict_iff :
    (verified b : Bool) (proof : Proof)
    → verdict verified proof ≡ ok b
    → (b ≡ true) ↔ (
        (verified ≡ true)
        × Covers proof.public_inputs.reserves_total proof.public_inputs.liabilities_total)
unfolding verdict
verdict_iff false b proof h = (λ e. cc, λ k. cc)
verdict_iff true b proof h = (
  λ e. (refl, reserves_cover-Covers _ _ (or_syntax_error-eq-ok _ true (rw e at h))),
  λ k. cc (rw (Covers-reserves_cover _ _ k.1) at h),
)

conclude_iff :
    {W : Type 0} (deps : SolvencyDeps W) (tenant : Text) (proof : Proof) (verified : Bool) (w v : W)
    (r : SolvencyResult)
    → conclude deps tenant proof verified w ≡ (ok r, v)
    → ((r.is_solvent ≡ true)
        ↔ ((r.verified_on_chain ≡ true) × Covers r.reserves_total r.liabilities_total))
      × (r.status ≡ (if r.is_solvent then solvent else breach))
unfolding conclude
conclude_iff deps tenant proof verified w v r h = go (verdict verified proof) refl
  where
    go :
        (x : Result Thrown Bool)
        → verdict verified proof ≡ x
        → ((r.is_solvent ≡ true)
            ↔ ((r.verified_on_chain ≡ true) × Covers r.reserves_total r.liabilities_total))
          × (r.status ≡ (if r.is_solvent then solvent else breach))
    go (ok b) k = rw (← result-eq) (verdict_iff verified b proof k, refl)
      where
        result-eq : solvency_result proof verified b ≡ r
        result-eq = cc (simp (k, conclude) at h)
    go (err e) k = cc (simp (k, conclude) at h)

conclude_parts :
    {W : Type 0} (deps : SolvencyDeps W) (tenant : Text) (proof : Proof) (verified : Bool) (w v : W)
    (r : SolvencyResult)
    → conclude deps tenant proof verified w ≡ (ok r, v)
    → (w ≡ v)
      × (r.verified_on_chain ≡ verified)
      × (r.reserves_total ≡ proof.public_inputs.reserves_total)
      × (r.liabilities_total ≡ proof.public_inputs.liabilities_total)
unfolding conclude solvency_result
conclude_parts {W} deps tenant proof verified w v r h = go (verdict verified proof) refl
  where
    go :
        (x : Result Thrown Bool)
        → verdict verified proof ≡ x
        → (w ≡ v)
          × (r.verified_on_chain ≡ verified)
          × (r.reserves_total ≡ proof.public_inputs.reserves_total)
          × (r.liabilities_total ≡ proof.public_inputs.liabilities_total)
    go (ok b) k =
        let ended : ◌≡◌ {A = Result Thrown SolvencyResult × W}
            (ok (solvency_result proof verified b), w) (ok r, v) =
          simp (k, conclude) at h in
        let same : solvency_result proof verified b ≡ r = cc ended in
        (
          cc ended,
          sym (ap (λ x. x.verified_on_chain) same),
          sym (ap (λ x. x.reserves_total) same),
          sym (ap (λ x. x.liabilities_total) same),
        )
    go (err e) k = cc (simp (k, conclude) at h)

-- An answer says solvent exactly when the on-chain check passed and the totals that it reports
-- cover, R ≥ L; its status is solvent then and breach otherwise.
pub get_solvency_iff :
    {W : Type 0} (deps : SolvencyDeps W) (tenant : Text) (w v : W) (r : SolvencyResult)
    → get_solvency deps tenant w ≡ (ok r, v)
    → ((r.is_solvent ≡ true)
        ↔ ((r.verified_on_chain ≡ true) × Covers r.reserves_total r.liabilities_total))
      × (r.status ≡ (if r.is_solvent then solvent else breach))
unfolding get_solvency judge
get_solvency_iff deps tenant w v r h =
    let (proof, u, _, judged) =
      and_then-eq-ok (deps.latest_proof tenant w) (judge deps tenant) r v h in
    let (verified, u', _, concluded) =
      and_then-eq-ok (deps.verify_on_chain tenant proof u) (conclude deps tenant proof) r v
        judged in
    conclude_iff deps tenant proof verified u' v r concluded

module _ {W : Type 0} (platform : Platform W) (contract : Contract W) (env : Environment)
    (network : Network) where
  -- The on-chain check never throws: whatever fails on the way, it answers false.
  pub verify_on_chain_total :
      (tenant : Text) (proof : Proof) (w : W)
      → (b : Bool) × (v : W) × ((chain_solvency_deps platform contract env network).verify_on_chain
            tenant proof w
          ≡ (ok b, v))
  unfolding chain_solvency_deps
  verify_on_chain_total tenant proof w =
      caught (check_on_chain platform contract (sdk_config env network tenant) w)
    where
      caught :
          (x : Result Thrown Bool × W)
          → (b : Bool) × (v : W) × (◌≡◌ {A = Result Thrown Bool × W}
              (or_else x (λ _ u. (ok false, u)))
              (ok b, v))
      caught (ok b, v) = (b, v, refl)
      caught (err e, v) = (false, v, refl)

  uncaught :
      (x : Result Thrown Bool × W) (v : W)
      → or_else {F = Thrown} x (λ _ u. (ok false, u)) ≡ (ok true, v)
      → x ≡ (ok true, v)
  uncaught (ok b, u) v h = h
  uncaught (err e, u) v h = cc

  check_on_chain-true :
      (config : SolvaConfig) (w v : W)
      → check_on_chain platform contract config w ≡ (ok true, v)
      → (m : ProofMeta) × (on_fresh config (get_on_chain_latest_proof platform contract) w
          ≡ (ok m, v))
        × Covers m.reserves_total m.liabilities_total
  unfolding check_on_chain
  check_on_chain-true config w v h =
      let (m, u, read, compared) =
        and_then-eq-ok (on_fresh config (get_on_chain_latest_proof platform contract) w)
          (λ m w'.
            (or_syntax_error (reserves_cover_liabilities m.reserves_total m.liabilities_total), w'))
          true v h in
      let same : u ≡ v = cc compared in
      (m, rw (← same) read, reserves_cover-Covers _ _ (or_syntax_error-eq-ok _ true (cc compared)))

  -- When the check answers true, the tenant's contract was read and its totals cover, R ≥ L.
  verify_on_chain_true :
      (tenant : Text) (proof : Proof) (w v : W)
      → (chain_solvency_deps platform contract env network).verify_on_chain tenant proof w
        ≡ (ok true, v)
      → (m : ProofMeta) × (on_fresh
            (sdk_config env network tenant)
            (get_on_chain_latest_proof platform contract)
            w
          ≡ (ok m, v))
        × Covers m.reserves_total m.liabilities_total
  unfolding chain_solvency_deps
  verify_on_chain_true tenant proof w v h =
      let config = sdk_config env network tenant in
      let checked : check_on_chain platform contract config w ≡ (ok true, v) =
        uncaught (check_on_chain platform contract config w) v h in
      check_on_chain-true config w v checked

  printed-Covers :
      (raw : GeneratedProofMeta) (m : ProofMeta)
      → m ≡ to_proof_meta raw
      → Covers m.reserves_total m.liabilities_total
      → raw.l ≤ℤ raw.r
  unfolding to_proof_meta
  printed-Covers raw m same covers =
      let (a, b, ea, eb, h) =
        subst (λ x. Covers x.reserves_total x.liabilities_total) same covers in
      let reserves : raw.r ≡ a = some_injective (sym (parse_bigint-print_bigint raw.r) ∙ ea) in
      let liabilities : raw.l ≡ b = some_injective (sym (parse_bigint-print_bigint raw.l) ∙ eb) in
      rw (reserves, liabilities) h

  -- An answer of the production wiring that says solvent rests on two reads, one after the other.
  -- The orchestrator gave a proof, asked under the tenant's name; its totals are those reported, and
  -- cover, R ≥ L. And the totals that a contract returned cover: where the environment names a
  -- contract it is that one, whichever tenant was asked for, and otherwise the one that the
  -- orchestrator has on record for this tenant.
  pub solvent_on_chain :
      (tenant : Text) (w v : W) (r : SolvencyResult)
      → get_solvency (chain_solvency_deps platform contract env network) tenant w ≡ (ok r, v)
      → r.is_solvent ≡ true
      → (proof : Proof) × (orchestrator : Orchestrator) × (u : W)
        × (options : ContractClientOptions) × (x : W) × (raw : GeneratedProofMeta)
        × (orchestrator.tenant ≡ tenant)
        × (Orchestrator.get_latest_proof platform orchestrator w ≡ (ok proof, u))
        × IsMeant platform contract env network tenant u options.contract_id x
        × (contract.get_latest_proof options x ≡ (ok raw, v))
        × (raw.l ≤ℤ raw.r)
        × (r.reserves_total ≡ proof.public_inputs.reserves_total)
        × (r.liabilities_total ≡ proof.public_inputs.liabilities_total)
        × Covers r.reserves_total r.liabilities_total
  unfolding get_solvency judge
  solvent_on_chain tenant w v r h s =
      let deps = chain_solvency_deps platform contract env network in
      let (proof, u, latest, judged) =
        and_then-eq-ok (deps.latest_proof tenant w) (judge deps tenant) r v h in
      let (verified, u', checked, concluded) =
        and_then-eq-ok (deps.verify_on_chain tenant proof u) (conclude deps tenant proof) r v
          judged in
      let parts = conclude_parts deps tenant proof verified u' v r concluded in
      let (passed, covers) = (conclude_iff deps tenant proof verified u' v r concluded).0.0 s in
      let affirmed : verified ≡ true = sym parts.1 ∙ passed in
      let (m, read, on_chain) =
        verify_on_chain_true tenant proof u v (checked ∙ (λ i. (ok (affirmed i), parts.0 i))) in
      let (orchestrator, named, asked) =
        latest_proof-asked platform contract env network tenant w u proof
          (unfold chain_solvency_deps in latest) in
      let (options, x, raw, meant, got, shown) =
        on_chain-IsMeant platform contract env network tenant u v m read in
      (
        proof,
        orchestrator,
        u,
        options,
        x,
        raw,
        named,
        asked,
        meant,
        got,
        printed-Covers raw m shown on_chain,
        parts.2,
        parts.3,
        covers,
      )
