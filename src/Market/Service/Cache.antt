-- ===== src/Market/Service/Cache.antt =====
-- A snapshot that was fetched serves the requests that follow while it is young.
use trade_post.Base.{
  ℕ, ◌+◌, ◌*◌, ◌<◌, ◌≡◌, ◌⊎◌, inl, inr, refl, subst, sym, String, Bool, true, false, some, arith,
  eq_iff, if◌then◌else◌, Option-cases,
}
use trade_post.Dict
use trade_post.Domain.{MarketSnapshot}
use trade_post.Market.Service.{Fetched, snapshot, exchange_error}
use trade_post.Floats.{Floats}
use trade_post.Market.Service.{
  Answered, answered, failed, MarketData, fetch_snapshot, fetch_connected, cached, features,
  snapshot_of, get_snapshot, is_stale,
}

module _ {F : Type 0} ⦃fl : Floats F⦄ where
  -- A fetch either leaves the service as it was, or adds its snapshot to the cache.
  abbrev Leaves : String → ℕ → MarketData F → Fetched F × MarketData F → Type 0
  Leaves symbol stored m (r, m') =
      (m' ≡ m)
      ⊎ ((snap : MarketSnapshot F) × (r ≡ snapshot snap)
          × (m' ≡ record m { cache = Dict.put symbol (stored, snap) m.cache }))

  fetch_snapshot-Leaves :
      (symbol : String) (stored stamped : ℕ) (a : Answered F) (m : MarketData F)
      → Leaves symbol stored m (fetch_snapshot symbol stored stamped a m)
  unfolding fetch_snapshot
  fetch_snapshot-Leaves symbol stored stamped failed m = inl refl
  fetch_snapshot-Leaves symbol stored stamped (answered t candles) m =
      elim (Option-cases (features m.settings candles)) [
        | inl divided ↦ rw (divided, fetch_snapshot) (inl refl)
        | inr (feats, e) ↦
            rw (e, fetch_snapshot) (inr (snapshot_of symbol stamped t feats, refl, refl))
      ]

  fetch_connected-Leaves :
      (symbol : String) (stored stamped : ℕ) (a : Answered F) (m : MarketData F)
      → Leaves symbol stored m (fetch_connected symbol stored stamped a m)
  unfolding fetch_connected
  fetch_connected-Leaves symbol stored stamped a m = by_test m.connected
    where
      by_test :
          (b : Bool)
          → Leaves symbol stored m (
              if b
              then fetch_snapshot symbol stored stamped a m
              else (exchange_error "Market service not connected", m))
      by_test true = fetch_snapshot-Leaves symbol stored stamped a m
      by_test false = inl refl

  served :
      (symbol : String) (stored now : ℕ) (snap : MarketSnapshot F) (m : MarketData F)
      → now < stored + m.settings.max_stale_data_sec * 1_000_000
      → (cached true symbol now (record m { cache = Dict.put symbol (stored, snap) m.cache })
          ≡ some snap)
        × (is_stale symbol now (record m { cache = Dict.put symbol (stored, snap) m.cache })
            ≡ false)
  unfolding cached is_stale
  served symbol stored now snap m h =
      ground (arith, Dict.get-put symbol symbol (stored, snap) m.cache, eq_iff symbol symbol)

  past_cache :
      (symbol : String) (now stored stamped : ℕ) (a : Answered F) (m : MarketData F)
      → get_snapshot false symbol now stored stamped a m ≡ fetch_connected symbol stored stamped a m
  unfolding get_snapshot cached
  past_cache symbol now stored stamped a m = ground arith

  from_cache :
      (symbol : String) (now stored stamped : ℕ) (a : Answered F) (m : MarketData F)
      (snap : MarketSnapshot F)
      → cached true symbol now m ≡ some snap
      → get_snapshot true symbol now stored stamped a m ≡ (snapshot snap, m)
  unfolding get_snapshot
  from_cache symbol now stored stamped a m snap e = rw (e, get_snapshot) refl

  -- A request past the cache either leaves the service as it was, or it returns a snapshot that every
  -- request within the limit on stale data after it returns again, whatever the exchange says, and
  -- until then the symbol is not stale.
  get_snapshot_cached :
      (symbol : String) (now stored stamped : ℕ) (a : Answered F) (m : MarketData F)
      (now' stored' stamped' : ℕ) (a' : Answered F)
      → now' < stored + m.settings.max_stale_data_sec * 1_000_000
      → let (r, m') = get_snapshot false symbol now stored stamped a m in
        (m' ≡ m)
        ⊎ ((snap : MarketSnapshot F) × (r ≡ snapshot snap)
            × (get_snapshot true symbol now' stored' stamped' a' m' ≡ (snapshot snap, m'))
            × (is_stale symbol now' m' ≡ false))
  get_snapshot_cached symbol now stored stamped a m now' stored' stamped' a' h =
      after (get_snapshot false symbol now stored stamped a m) (
        subst (Leaves symbol stored m) (sym (past_cache symbol now stored stamped a m))
          (fetch_connected-Leaves symbol stored stamped a m))
    where
      after :
          (q : Fetched F × MarketData F)
          → Leaves symbol stored m q
          → (q.1 ≡ m)
            ⊎ ((snap : MarketSnapshot F) × (q.0 ≡ snapshot snap)
                × (get_snapshot true symbol now' stored' stamped' a' q.1 ≡ (snapshot snap, q.1))
                × (is_stale symbol now' q.1 ≡ false))
      after q (inl same) = inl same
      after q (inr (snap, r, e)) =
          let (hit, fresh) = served symbol stored now' snap m h in
          inr (snap, r, rw e (from_cache symbol now' stored' stamped' a' _ snap hit), rw e fresh)
