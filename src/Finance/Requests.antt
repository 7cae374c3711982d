-- ===== src/Finance/Requests.antt =====
-- The requests of core/api/routes/ledger_api.py and core/api/routes/finance_api.py that write.
use tgc_bus_core.Base.{refl, String, ◌≡◌, Bool}
use tgc_bus_core.Effects.{Error, err, Action, Env, GivesFreshKeys}
use tgc_bus_core.Effects.Keeps.{Leads, Leads-bind, Keeps-pure}
use tgc_bus_core.StockTables.{StockDb}
use tgc_bus_core.StockMutation.{StockState, on_session}
use tgc_bus_core.StockMutation.Balance.{OfSession}
use tgc_bus_core.StockMutation.Stable.{Commits}
use tgc_bus_core.StockRoutes.Requests.{StockRequest, answered, handle, Store, begin}
use tgc_bus_core.StockRoutes.Serve.{Started, Ended, Leads-handle}
use tgc_bus_core.StockRoutes.Refused.{Undoes, Undoes-handle, Undoes-answer}
use tgc_bus_core.QuantityGuard.{Json}
use tgc_bus_core.Finance.{ExpenseIn, RefundIn, finance_expense, finance_refund}
use tgc_bus_core.Finance.Refunds.{Leads-finance_refund, Undoes-finance_refund}

pub data BookRequest : Type 0 where
  stock : StockRequest → BookRequest
  expense : ExpenseIn → BookRequest
  refund : Bool → Json → RefundIn → BookRequest

module _ (env : Env) (message : Error → String) where
  unfoldable pub handle_book : BookRequest → Action StockState (Unit {0})
  handle_book (stock request) = handle env message request
  handle_book (expense body) = answered (on_session (finance_expense env body))
  handle_book (refund begun raw body) = answered (finance_refund env begun raw body)

  Leads-expense :
      (body : ExpenseIn)
      → Leads (OfSession Started) (OfSession Ended) (on_session (finance_expense env body))
  unfolding finance_expense
  Leads-expense body = record {
    at = λ t ((clean, b), keyed, sound). record {
      balanced = record { movements = b.movements; stored = b.stored; items_keyed = b.items_keyed };
      keyed = keyed;
    };
  }

  pub Leads-handle_book :
      GivesFreshKeys env
      → (request : BookRequest) → Leads (OfSession Started) (OfSession Ended) (handle_book request)
  unfolding handle_book
  Leads-handle_book new (stock request) = Leads-handle env new message request
  Leads-handle_book new (expense body) = Leads-bind _ _ (Leads-expense body) (λ id. Keeps-pure tt)
  Leads-handle_book new (refund begun raw body) =
      Leads-bind _ _ (Leads-finance_refund env begun raw body new) (λ id. Keeps-pure tt)

  -- An expense is never answered by an error.
  Undoes-expense :
      (d : StockDb) (body : ExpenseIn) → Undoes d (on_session (finance_expense env body))
  unfolding finance_expense
  Undoes-expense d body = record { at = λ t e same h. cc }

  Undoes-handle_book : (d : StockDb) (request : BookRequest) → Undoes d (handle_book request)
  unfolding handle_book
  Undoes-handle_book d (stock request) = Undoes-handle env message d request
  Undoes-handle_book d (expense body) = Undoes-answer d _ _ (Undoes-expense d body)
  Undoes-handle_book d (refund begun raw body) =
      Undoes-answer d _ _ (Undoes-finance_refund env begun raw body d)

  -- A request of stock, an expense or a refund that is answered by an error leaves the database
  -- as it was before it: a refund that cannot be restocked records no cash event.
  pub handle_book_refused :
      (request : BookRequest) (store : Store) (e : Error)
      → (handle_book request (begin store)).0 ≡ err e
      → (handle_book request (begin store)).1.session.committed ≡ store.db
  handle_book_refused request store e h =
      unfold Commits in ((Undoes-handle_book store.db request).at (begin store) e refl h)
