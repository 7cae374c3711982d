-- ===== src/Requests.antt =====
-- The routes of core/api/routes that write the stock tables, as one sequence of requests on one
-- database: ledger_api.py, finance_api.py and manufacturing.py.
use tgc_bus_core.Base.{refl, ◌≡◌, String, List, [], ◌∷◌}
use tgc_bus_core.Effects.{Error, Result, Action, Env, GivesFreshKeys}
use tgc_bus_core.Effects.Keeps.{Leads-bind, Keeps-pure}
use tgc_bus_core.StockMutation.{StockState, on_session}
use tgc_bus_core.StockRoutes.Requests.{answered, Store, begin, end}
use tgc_bus_core.StockRoutes.Serve.{IsSound, Ended}
use tgc_bus_core.StockMutation.Balance.{OfSession}
use tgc_bus_core.QuantityGuard.{Json}
use tgc_bus_core.Manufacturing.{RunRequest}
use tgc_bus_core.ManufactureRoutes.{canonical_manufacture}
use tgc_bus_core.ManufactureRoutes.Ends.{canonical_manufacture-IsSound}
use tgc_bus_core.Finance.Requests.{BookRequest, handle_book, Leads-handle_book}

pub data ShopRequest : Type 0 where
  book : BookRequest → ShopRequest
  manufacture : Json → ShopRequest

module _ (env : Env) (message : Error → String) (parse : Json → Result RunRequest) where
  unfoldable pub handle_shop : ShopRequest → Action StockState (Unit {0})
  handle_shop (book request) = handle_book env message request
  handle_shop (manufacture raw) = answered (on_session (canonical_manufacture env parse raw))

  unfoldable pub serve_shop : List ShopRequest → Store → Store
  serve_shop [] store = store
  serve_shop (request ∷ requests) store =
      serve_shop requests (end (handle_shop request (begin store)).1)

  handle_shop-IsSound :
      GivesFreshKeys env
      → (request : ShopRequest) (store : Store) → IsSound store.db
      → IsSound (handle_shop request (begin store)).1.session.committed
  unfolding handle_shop
  handle_shop-IsSound new (book request) store sound =
      (Leads-handle_book env message new request).at (begin store)
        ((record { flushed = refl; keyed = sound.keyed }, sound.balanced), sound.keyed, sound)
  handle_shop-IsSound new (manufacture raw) store sound =
      (Leads-bind {P = λ t. t ≡ begin store} {Q = OfSession Ended}
          (on_session (canonical_manufacture env parse raw)) _
          (record {
            at = λ t same. rw same (canonical_manufacture-IsSound env parse raw store.db new sound);
          })
          (λ result. Keeps-pure tt)).at
        (begin store) refl

  -- Where the database gives new rows keys that no row has, any sequence of stock requests,
  -- expenses, refunds, with or without restocking, and manufacturing runs, whether they succeed or
  -- fail, leaves a database that is in balance and keeps the keys of its batches apart so.
  pub serve_shop-IsSound :
      GivesFreshKeys env
      → (requests : List ShopRequest) (store : Store) → IsSound store.db
      → IsSound (serve_shop requests store).db
  unfolding serve_shop
  serve_shop-IsSound new [] store sound = sound
  serve_shop-IsSound new (request ∷ requests) store sound =
      serve_shop-IsSound new requests _ (handle_shop-IsSound new request store sound)
