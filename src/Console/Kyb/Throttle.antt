-- ===== src/Console/Kyb/Throttle.antt =====
-- The throttle of apps/web/src/app/api/kyb/route.ts: a table of counters by address.
pub mod Bounds
use solva.Prelude.{ℕ, ◌+◌, Bool, true, false, List, [], ◌∷◌, Option, none, some, ltb, if◌then◌else◌}
use solva.Prelude.Text.{Text, text_eq}

pub record Entry : Type 0 where
  pub count : ℕ
  pub reset_at : ℕ

-- `hits`, whose keys are distinct where it is built by `put`.
abbrev pub Hits : Type 0
Hits = List (Text × Entry)

abbrev pub window_ms : ℕ
window_ms = 60000

abbrev pub max_per_window : ℕ
max_per_window = 5

unfoldable pub get : Text → Hits → Option Entry
get ip [] = none
get ip ((key, entry) ∷ hits) = if text_eq key ip then some entry else get ip hits

unfoldable pub put : Text → Entry → Hits → Hits
put ip entry [] = (ip, entry) ∷ []
put ip entry ((key, old) ∷ hits) =
    if text_eq key ip then (key, entry) ∷ hits else (key, old) ∷ put ip entry hits

unfoldable pub open_window : Text → ℕ → Hits → Bool × Hits
open_window ip now hits = (false, put ip (record { count = 1; reset_at = now + window_ms }) hits)

unfoldable pub count_hit : Text → Entry → Hits → Bool × Hits
count_hit ip entry hits =
    (ltb max_per_window (entry.count + 1), put ip (record entry { count = entry.count + 1 }) hits)

unfoldable pub limit : Option Entry → Text → ℕ → Hits → Bool × Hits
unfolding open_window count_hit
limit none ip now hits = open_window ip now hits
limit (some entry) ip now hits =
    if ltb entry.reset_at now then open_window ip now hits else count_hit ip entry hits

-- `rateLimited`: whether the address is over its limit, and the table behind the call.
unfoldable pub rate_limited : Text → ℕ → Hits → Bool × Hits
unfolding limit get
rate_limited ip now hits = limit (get ip hits) ip now hits
