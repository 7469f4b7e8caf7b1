-- ===== src/Orchestrator/Lifecycle/Tests.antt =====
-- Starts of the application on the settings' defaults, with and without markets that load.
use trade_post.Base.{◌≡◌, ◌⊎◌, refl, true, false, none, some, []}
use trade_post.Decimal.{Decimal}
use trade_post.Market.Service.Connection as Exchange
use trade_post.Orchestrator.Lifecycle.{
  Running, Starting, Stopping, IsClosed, startup, begun, shutdown, lifespan, lifespan-IsClosed,
}
use trade_post.Persistence.Connection as Store
use trade_post.Samples.{settings}

abbrev before : Running Decimal
before = record {
  tasks = [];
  database = record { database_url = "sqlite+aiosqlite:///./trade_post.db"; engine = none };
  market = record { settings = settings; connected = false; cache = [] };
  http = false;
}

abbrev online : Starting
online = record { creates = true; core = true; loads = true }

-- The HTTP client does not close.
abbrev stop : Stopping
stop = record { stuck = λ _. false; http_closes = false; market_closes = true; disposes = true }

abbrev runs : Running Decimal → Running Decimal
runs r = r

starts_online : (startup online before).0 ≡ true
unfolding startup Store.connect Exchange.connect
starts_online = refl

-- Without the markets the start raises, and the engine is open when the application has ended.
leaves_engine :
    (lifespan true (record online { loads = false }) stop runs before).database.engine
    ≡ some (Store.engine_of "sqlite+aiosqlite:///./trade_post.db")
unfolding lifespan startup shutdown Store.connect Exchange.connect
leaves_engine = refl

redacts : Store.redact_url "postgresql+asyncpg://bot:pw@db:5432/t" ≡ "***@db:5432/t"
unfolding Store.redact_url Store.after_at
redacts = refl

lifespan-IsClosed_example :
    (((begun true online before).0 ≡ false)
      × (lifespan true online stop runs before ≡ (begun true online before).1))
    ⊎ IsClosed stop (lifespan true online stop runs before)
lifespan-IsClosed_example = lifespan-IsClosed true online stop runs before (λ _. refl) refl
