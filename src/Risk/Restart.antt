-- ===== src/Risk/Restart.antt =====
-- The risk state across a restart: what `load` reads back of what the methods stored.
use trade_post.Base.{ℕ, ◌≡◌, refl, Bool, true, Option, none, some, arith, String}
use trade_post.Domain.{RiskState}
use trade_post.Money.{Money}
use trade_post.Persistence.RiskRow.{reread}
use trade_post.Risk.{Engine, load, persist, kill}

-- Every amount of the state is in USDT, the one currency that a row stands for.
pub record IsInUsdt (s : RiskState) : Type 0 where
  pub profit : s.daily_realized_pnl.currency ≡ "USDT"
  pub start : (m : Money) → s.starting_equity ≡ some m → m.currency ≡ "USDT"

reread_same : (o : Option Money) → ((m : Money) → o ≡ some m → m.currency ≡ "USDT") → reread o ≡ o
reread_same none h = refl
reread_same (some m) h = ground (arith, h m refl)

module _ {F : Type 0} where
  -- A process that starts on a database which holds a stored state.
  abbrev pub restarted : Engine F → Engine F → Engine F
  restarted fresh old = load (record fresh { bound = true; db = old.db })

module _ {F : Type 0} (up : ℕ → Bool) where
  -- A state in USDT that a bound engine stores while the database answers comes back whole when
  -- another process loads it.
  pub load-persist :
      (fresh e : Engine F)
      → e.bound ≡ true
      → up e.db.attempts ≡ true
      → IsInUsdt e.state
      → (restarted fresh (persist up e)).state ≡ e.state
  unfolding load persist
  load-persist fresh e b u h = ground (arith, reread_same e.state.starting_equity h.start)

  -- A kill whose write succeeds outlives the process: the next one starts killed, for the same reason.
  load-kill :
      (fresh e : Engine F) (now : ℕ) (why : String)
      → e.bound ≡ true
      → up e.db.attempts ≡ true
      → let s = (restarted fresh (kill up now why e)).state in
        (s.killed ≡ true) × (s.kill_reason ≡ some why) × (s.killed_at ≡ some now)
  unfolding load persist kill
  load-kill fresh e now why b u = ground arith
