-- ===== src/Website/Supply/Cached.antt =====
-- What `readSupplySnapshot` (apps/website/src/lib/stellar-supply.ts) keeps between calls.
use mathlib.Core.Path.{subst}
use solva.Prelude.{
  ℕ, ◌-◌, ◌<◌, ◌≡◌, ◌≢◌, refl, sym, Bool, true, false, List, [], ◌∷◌, Option, none, some, arith,
  ltb,
}
use solva.Prelude.Text.{Text}
use solva.Website.Supply.{
  StellarAsset, AssetSupply, SupplySnapshot, Horizon, Cache, ttl_ms, read_supply_snapshot,
  read_anew, keep_snapshot, store, reuse,
}

-- A cache that holds a snapshot has one with a row in it.
abbrev pub IsFilled : Cache → Type 0
IsFilled none = Unit {0}
IsFilled (some (at, snapshot)) = snapshot.rows ≢ []

-- What an answer promises: a snapshot that is returned has rows and is the one that is kept.
abbrev pub IsKept : Option SupplySnapshot → Cache → Type 0
IsKept none cached = IsFilled cached
IsKept (some s) cached = (s.rows ≢ []) × (at : ℕ) × (cached ≡ some (at, s))

-- How long ago the cache was filled, in milliseconds.
unfoldable pub age : ℕ → Cache → ℕ
unfolding ttl_ms
age t none = ttl_ms
age t (some (at, snapshot)) = t - at

module _ {W : Type 0} (horizon : Horizon W) where
  store-IsKept :
      (r : ℕ × W) (row : AssetSupply) (rows : List AssetSupply) (ledger : ℕ) (closed_at : Text)
      → IsKept
          (store horizon r (record { rows = row ∷ rows; ledger = ledger; closed_at = closed_at })).0
          (store horizon r (record { rows = row ∷ rows; ledger = ledger; closed_at = closed_at })).1
  unfolding store
  store-IsKept (at, w) row rows ledger closed_at = ((λ e. cc), at, refl)

  keep_snapshot-IsKept :
      (ledger : Option (ℕ × Text)) (rows : List AssetSupply) (cached : Cache) (w : W)
      → IsFilled cached
      → IsKept
          (keep_snapshot horizon ledger rows cached w).0
          (keep_snapshot horizon ledger rows cached w).1
  unfolding keep_snapshot
  keep_snapshot-IsKept none rows cached w f = f
  keep_snapshot-IsKept (some (ledger, closed_at)) [] cached w f = f
  keep_snapshot-IsKept (some (ledger, closed_at)) (row ∷ rows) cached w f =
      store-IsKept (horizon.now w) row rows ledger closed_at

  read_anew-IsKept :
      (assets : List StellarAsset) (cached : Cache) (w : W)
      → IsFilled cached
      → IsKept (read_anew horizon assets cached w).0 (read_anew horizon assets cached w).1
  unfolding read_anew
  read_anew-IsKept assets cached w f = keep_snapshot-IsKept _ _ cached _ f

  reuse-IsKept :
      (at : ℕ) (snapshot : SupplySnapshot) (assets : List StellarAsset) (r : ℕ × W)
      → snapshot.rows ≢ []
      → IsKept (reuse horizon (at, snapshot) assets r).0 (reuse horizon (at, snapshot) assets r).1
  unfolding reuse
  reuse-IsKept at snapshot assets (t, w) f = go (ltb (t - at) ttl_ms) refl
    where
      go :
          (b : Bool)
          → ltb (t - at) ttl_ms ≡ b
          → IsKept
              (reuse horizon (at, snapshot) assets (t, w)).0
              (reuse horizon (at, snapshot) assets (t, w)).1
      go true h = simp h (f, at, refl)
      go false h = simp h (read_anew-IsKept assets (some (at, snapshot)) w f)

  -- From a cache that is empty or holds a snapshot with rows, whatever Horizon answers: a snapshot
  -- that is returned has rows and is the one kept, and where none is returned the cache still is
  -- empty or holds a snapshot with rows.
  pub read_supply_snapshot-IsKept :
      (assets : List StellarAsset) (cached : Cache) (w : W)
      → IsFilled cached
      → IsKept
          (read_supply_snapshot horizon assets cached w).0
          (read_supply_snapshot horizon assets cached w).1
  unfolding read_supply_snapshot
  read_supply_snapshot-IsKept assets none w f = read_anew-IsKept assets none w f
  read_supply_snapshot-IsKept assets (some (at, snapshot)) w f =
      reuse-IsKept at snapshot assets (horizon.now w) f

  reuse_soon :
      (more : List StellarAsset) (s : SupplySnapshot) (v u : W) (at t : ℕ)
      → horizon.now v ≡ (t, u)
      → t - at < 300000
      → read_supply_snapshot horizon more (some (at, s)) v ≡ (some s, some (at, s), u)
  unfolding read_supply_snapshot reuse ttl_ms
  reuse_soon more s v u at t clock soon =
      let fresh : ltb (t - at) 300000 ≡ true = ground arith in simp (clock, fresh)

  -- A snapshot that was returned is returned again, for any assets, by a call less than five minutes
  -- after the time kept with it, which changes the cache no more and asks nothing but the time.
  pub read_twice :
      (assets more : List StellarAsset) (cached kept : Cache) (s : SupplySnapshot) (w v u : W)
      (t : ℕ)
      → IsFilled cached
      → read_supply_snapshot horizon assets cached w ≡ (some s, kept, v)
      → horizon.now v ≡ (t, u)
      → age t kept < 300000
      → read_supply_snapshot horizon more kept v ≡ (some s, kept, u)
  unfolding age
  read_twice assets more cached kept s w v u t f first clock soon =
      let (_, at, held) =
        subst (λ r. IsKept r.0 r.1) first (read_supply_snapshot-IsKept assets cached w f) in
      again at held
    where
      again :
          (at : ℕ)
          → kept ≡ some (at, s)
          → read_supply_snapshot horizon more kept v ≡ (some s, kept, u)
      again at held =
          let soon_at : t - at < 300000 = subst (λ c. age t c < 300000) held soon in
          subst (λ c. read_supply_snapshot horizon more c v ≡ (some s, c, u)) (sym held)
            (reuse_soon more s v u at t clock soon_at)
