-- ===== src/Lib.antt =====
-- Solva proves that an institution's reserves cover its liabilities: a prover publishes proofs
-- through an orchestrator to a registry contract on Stellar, and TypeScript clients read both. This
-- library models that TypeScript code.
--
-- Prelude holds what the parts share: texts (lists of UTF-16 code units), integers, `BigInt` and
-- `toString` on decimal text, lists, and `Effect`, in which code that awaits the world outside takes
-- a state of the world and gives it back beside its value or what it throws; Payload is what a
-- handler gets of a request's JSON body.
-- SharedTypes is packages/shared-types/src (proof.ts, merkle.ts, solvency.ts) and Anomaly its
-- anomaly.ts: `detect_anomalies` sorts a proof history and compares each cycle with the one before.
-- Sdk is packages/sdk-ts/src (config.ts, errors.ts) with Sdk/Orchestrator for
-- orchestrator-client.ts, Sdk/Registry for packages/contract-bindings/src/index.ts, Sdk/Chain for
-- chain-client.ts and Sdk/Client for solva.ts, whose `chain` field is the object's one piece of
-- state: `resolve_chain` sets it.
-- Oracle is services/oracle/src (solvency.ts, tools.ts, server.ts): `get_solvency` asks the SDK for
-- a proof and for the record on chain, `get_anomalies` scans a history. Which contract such a record
-- is of is followed in Oracle/Named and Sdk/Client/Named.
-- Website/Amount is apps/website/src/lib/amount.ts and coverage.ts, Website/Institutions
-- demo-institutions.ts beside them, Website/Sandbox the guided run of
-- apps/website/src/features/product: lib/sandbox.ts (Sandbox, Sandbox/Lines),
-- hooks/use-sandbox.ts (Sandbox/Runners, Sandbox/Hook). There a visitor's acts and the answers of
-- requests are the constructors of `Step`, under the conditions of components/demo/sandbox.tsx.
--
-- Website/Supply is apps/website/src/lib/stellar-supply.ts, with its cache as state, and
-- Website/RecordHistory record-history.ts beside it, with features/solutions/lib/collateral.ts.
-- Website/Inclusion is apps/website/src/features/solutions/lib/inclusion.ts, and Inclusion/Query the
-- field in front of it (hooks/use-inclusion-check.ts). Website/DayPicker is
-- features/product/hooks/use-day-picker.ts. Website/OnchainRecord is
-- apps/website/src/lib/onchain-record.ts, the site's reads of the registry.
--
-- Website/Contact is apps/website/src/features/contact: Contact/Schema the fields and their checks,
-- Contact/Submit and Contact/Waitlist the two handlers, which take the mail service as a parameter.
-- Website/Api is apps/website/src/app/api/sandbox with lib/sandbox-backend.ts: its answers are the
-- ones that Website/Sandbox/Runners judges, and its reads of the chain those of
-- Website/OnchainRecord.
-- Website/ScrollLock is apps/website/src/lib/scroll-lock.ts under hooks/use-popover-scroll-lock.ts
-- and use-smooth-scroll.ts, Website/Blog features/blog/lib, Website/Stage features/home
-- (lib/stage-steps.ts and two hooks), Website/Sections the hooks of the legal, company and product
-- pages that follow what is read.
--
-- Console is apps/web/src. Console/Kyb is app/api/kyb/route.ts, whose table of counters
-- (Console/Kyb/Throttle) is state beside the world; Console/Passkey lib/passkey, with the reader of a
-- signer key (public-key.ts), the paying session (session.ts), whose kept promise is the state of its
-- module, and the deployment (wallet.ts, provision.ts, tx.ts); Console/Auth lib/auth.ts;
-- Console/Operator lib/session, with the pages' acts as the constructors of `Step` in
-- Console/Operator/Provider; Console/Provisioning app/api/provision and lib/control-plane.ts;
-- Console/PublicRecord app/api/latest-proof on the modelled SDK; Console/Format lib/format.ts and
-- report.ts; Console/Mails lib/email (templates.ts, config.ts).
-- The rest of the console are pages as state machines, in which a call that is awaited is one step
-- where it is made and another where it answers, over the first of Prelude/Pending's queue:
-- Console/Verify app/(public)/verify/verify-client.tsx with lib/mock/proofs.ts, Console/Inclusion
-- app/(public)/inclusion/inclusion-client.tsx with lib/mock/inclusion.ts, Console/Dashboard
-- lib/dashboard/provider.tsx with lib/mock/dashboard.ts and, in Dashboard/Dialog,
-- components/dashboard/connect-source-dialog.tsx. Console/PublishingKey is
-- components/dashboard/publishing-key-card.tsx, whose run calls Console/Passkey/Signer, which is
-- lib/passkey/signer.ts and encodes by Console/Passkey/Encoding (encoder.ts, challenge.ts,
-- wallet-state.ts).
--
-- Loops are structural recursion, on a list or on the number of attempts or reads that the code
-- allows. Only the printing of a number has fuel, one round more than the number itself, and each
-- round prints a digit. Percentages stand in hundredths of a percent and the share of coverage in
-- ten-thousandths; where the code computes with floating-point numbers, they are taken to be exact,
-- which holds below 2 ^ 53. Calls on one object that are awaited run one after the other. `fetch`,
-- the parsers of JSON bodies, `encodeURIComponent`, `toUpperCase`, `toLocaleString`, the clock, the
-- shift of a date, the generated contract clients, the mail service, the browser's storage and its
-- ceremonies, the curve, the network's library (its encodings and hashes), and the text of the error
-- that `BigInt` throws are parameters.
-- Not modelled: the Go services, the Rust prover and contract, the circuits, the adapter for a kit of
-- wallets and the address derived for a wallet, generated bindings, animations, and all markup but
-- that of the mails.
pub mod Prelude
pub mod SharedTypes
pub mod Anomaly
pub mod Sdk
pub mod Oracle
pub mod Website
pub mod Console
