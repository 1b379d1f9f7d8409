-- ===== src/Prelude/Payload.antt =====
-- What `await request.json()` gives a handler: it throws, or it gives `null`, or another value. A
-- field of `null` cannot be read, and the handlers read the first one outside any `try`:
-- apps/web/src/app/api/kyb/route.ts and provision/route.ts,
-- apps/website/src/app/api/sandbox/run/route.ts.
pub data Payload {ℓ} (A : Type ℓ) : Type ℓ where
  unreadable null_body : Payload A
  parsed : A → Payload A
