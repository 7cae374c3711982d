-- ===== src/StockRoutes/Serve.antt =====
-- core/api/routes/ledger_api.py: what every request for stock leaves in the database.
use tgc_bus_core.Base.{ℕ, ◌≡◌, refl, String, Option, none, some, List, [], ◌∷◌}
use tgc_bus_core.Base.Int.{ℤ, pos, ltb_ℤ}
use tgc_bus_core.Decimal.{Number}
use tgc_bus_core.Effects.{Error, Result, ok, err, Action, Env, GivesFreshKeys, ◌>>=◌}
use tgc_bus_core.Effects.Keeps.{
  Leads, Keeps, Leads-bind, Leads-after, Leads-if, Keeps-lift, Keeps-pure, keeps_rules,
}
use tgc_bus_core.StockTables.{StockDb, StockSession}
use tgc_bus_core.Ledger.Balance.{IsBalanced}
use tgc_bus_core.Ledger.Keyed.{HasKeyedBatches, Keyed}
use tgc_bus_core.StockMutation.{
  StockState, StockOutMeta, perform_stock_in_base, perform_stock_out_base,
}
use tgc_bus_core.StockMutation.Balance.{
  Ready, Balanced, OfSession, perform_stock_in_base-Keeps, perform_stock_out_base-Leads,
}
use tgc_bus_core.StockMutation.Stable.{
  Keeps-stock_in, Keeps-stock_out, Keeps-purchase, Keyed-stable, Commits, Commits-stable,
}
use tgc_bus_core.Purchases.{PurchaseInfo, PurchaseLine, perform_purchase_base}
use tgc_bus_core.Purchases.Balance.{perform_purchase_base-Keeps}
use tgc_bus_core.StockRoutes.{
  finish, in_transaction, default_uom_for_item, uom_or_default, PurchaseCanonicalIn,
  StockOutCanonicalIn, StockInCanonicalIn, ConsumeIn, AdjustmentInput, to_base_qty_for_item,
  purchase, stock_out, stock_in, canonical_purchase, canonical_stock_out, canonical_stock_in,
  consume, raise_stock, lower_stock, adjust_stock, purchase_wrapper, stock_out_wrapper,
  stock_in_wrapper,
}
use tgc_bus_core.StockRoutes.Requests.{StockRequest, answered, handle, Store, begin, serve}

-- The ledger is in balance, and the keys of its batches are apart.
pub record IsSound (db : StockDb) : Type 0 where
  pub balanced : IsBalanced db
  pub keyed : HasKeyedBatches db

-- As a request begins, and before the commit or the rollback.
abbrev pub Started : StockSession → Type 0
Started s = Ready s × Keyed s × IsSound s.committed

abbrev pub Changed : StockSession → Type 0
Changed s = Balanced s × Keyed s × IsSound s.committed

abbrev pub Ended : StockSession → Type 0
Ended s = IsSound s.committed

over : (s : StockSession) → Started s → Ended s
over s h = h.2

pub Leads-all :
    {A : Type 0} (m : Action StockState A)
    → Leads (OfSession Ready) (OfSession Balanced) m
    → Keeps (OfSession Keyed) m
    → ((d : StockDb) → Keeps (OfSession (Commits d)) m)
    → Leads (OfSession Started) (OfSession Changed) m
Leads-all m balance keys commits = record {
  at = λ t (ready, keyed, sound).
      let same : (m t).1.session.committed ≡ t.session.committed =
        unfold Commits in ((commits t.session.committed).at t refl) in
      (balance.at t ready, keys.at t keyed, rw same sound);
}

ends :
    {A : Type 0} (answer : Error → Error) (r : Result A) (t : StockState)
    → OfSession Changed t
    → OfSession Ended (finish answer r t).1
ends answer (ok a) t (balanced, keyed, sound) = record { balanced = balanced; keyed = keyed }
ends answer (err e) t (balanced, keyed, sound) = sound

pub Leads-in_transaction :
    {A : Type 0} (answer : Error → Error) (body : Action StockState A)
    → Leads (OfSession Started) (OfSession Changed) body
    → Leads (OfSession Started) (OfSession Ended) (in_transaction answer body)
unfolding in_transaction
Leads-in_transaction answer body k = record {
  at = λ t h. let (r, u) = body t in ends answer r u (k.at t h);
}

begins : (t : StockState) → OfSession Started t → OfSession Ended t
begins t h = h.2

-- What comes before a transaction.
pub Leads-before :
    {A B : Type 0} (m : Action StockState A) (f : A → Action StockState B)
    → Keeps (OfSession Started) m
    → ((a : A) → Leads (OfSession Started) (OfSession Ended) (f a))
    → Leads (OfSession Started) (OfSession Ended) (m >>= f)
Leads-before m f = Leads-after m f begins

module _ (env : Env) (new : GivesFreshKeys env) (message : Error → String) where
  Leads-purchase_base :
      (info : PurchaseInfo) (lines : List PurchaseLine)
      → Leads (OfSession Started) (OfSession Changed) (perform_purchase_base env info lines)
  Leads-purchase_base info lines =
      Leads-all _ (record { at = λ t h. (perform_purchase_base-Keeps env info lines).at t h.1 })
        (Keeps-purchase (Keyed-stable env new) info lines)
        (λ d. Keeps-purchase (Commits-stable env d) info lines)

  Leads-stock_in_base :
      (item_id : ℕ) (qty : ℤ) (cost : Option Number) (ref kind source : Option String)
      → Leads
          (OfSession Started)
          (OfSession Changed)
          (perform_stock_in_base env item_id qty cost ref kind source)
  Leads-stock_in_base item_id qty cost ref kind source =
      Leads-all _
        (record {
          at = λ t h. (perform_stock_in_base-Keeps env item_id qty cost ref kind source).at t h.1;
        })
        (Keeps-stock_in (Keyed-stable env new) item_id qty cost ref kind source)
        (λ d. Keeps-stock_in (Commits-stable env d) item_id qty cost ref kind source)

  Leads-stock_out_base :
      (item_id : ℕ) (qty : ℤ) (ref : Option String) (meta : StockOutMeta)
      → Leads
          (OfSession Started)
          (OfSession Changed)
          (perform_stock_out_base env item_id qty ref meta)
  Leads-stock_out_base item_id qty ref meta =
      Leads-all _ (perform_stock_out_base-Leads env item_id qty ref meta)
        (Keeps-stock_out (Keyed-stable env new) item_id qty ref meta)
        (λ d. Keeps-stock_out (Commits-stable env d) item_id qty ref meta)

  Keeps-to_base_qty :
      (item_id : ℕ) (q : Number) (uom : String)
      → Keeps (OfSession Started) (to_base_qty_for_item env message item_id q uom)
  unfolding to_base_qty_for_item
  Keeps-to_base_qty item_id q uom = search keeps_rules depth 9

  Keeps-uom_or_default :
      (item_id : ℕ) (uom : Option String) → Keeps (OfSession Started) (uom_or_default item_id uom)
  unfolding uom_or_default default_uom_for_item
  Keeps-uom_or_default item_id none = search keeps_rules depth 9
  Keeps-uom_or_default item_id (some uom) = search keeps_rules

  ruleset route_rules = (
    Leads-before, Leads-in_transaction, Keeps-to_base_qty, Keeps-uom_or_default, Keeps-lift,
    Leads-purchase_base, Leads-stock_in_base, Leads-stock_out_base,
  )

  Leads-purchase :
      (body : PurchaseCanonicalIn)
      → Leads (OfSession Started) (OfSession Ended) (purchase env message body)
  unfolding purchase
  Leads-purchase body = search route_rules depth 9

  Leads-stock_out :
      (body : StockOutCanonicalIn)
      → Leads (OfSession Started) (OfSession Ended) (stock_out env message body)
  unfolding stock_out
  Leads-stock_out body = search route_rules depth 9

  Leads-stock_in :
      (body : StockInCanonicalIn)
      → Leads (OfSession Started) (OfSession Ended) (stock_in env message body)
  unfolding stock_in
  Leads-stock_in body = search route_rules depth 9

  Leads-consume :
      (body : ConsumeIn) → Leads (OfSession Started) (OfSession Ended) (consume env message body)
  unfolding consume
  Leads-consume body =
      Leads-in_transaction _ _
        (Leads-bind _ _ (Leads-stock_out_base _ _ _ _) (λ lines. Keeps-pure _))

  Leads-raise_stock :
      (body : AdjustmentInput)
      → Leads (OfSession Started) (OfSession Changed) (raise_stock env message body)
  unfolding raise_stock
  Leads-raise_stock body = Leads-bind _ _ (Leads-stock_in_base _ _ _ _ _ _) (λ id. Keeps-pure _)

  Leads-lower_stock :
      (body : AdjustmentInput)
      → Leads (OfSession Started) (OfSession Changed) (lower_stock env message body)
  unfolding lower_stock
  Leads-lower_stock body = Leads-bind _ _ (Leads-stock_out_base _ _ _ _) (λ lines. Keeps-pure _)

  Leads-adjust_stock :
      (body : AdjustmentInput)
      → Leads (OfSession Started) (OfSession Ended) (adjust_stock env message body)
  unfolding adjust_stock
  Leads-adjust_stock body = Leads-in_transaction _ _ (
      Leads-if (ltb_ℤ (pos 0) body.qty_change) _ _ (Leads-raise_stock body)
        (Leads-lower_stock body))

  Leads-answered :
      {A : Type 0} (m : Action StockState A)
      → Leads (OfSession Started) (OfSession Ended) m
      → Leads (OfSession Started) (OfSession Ended) (answered m)
  Leads-answered m k = Leads-bind m _ k (λ a. Keeps-pure tt)

  pub Leads-handle :
      (request : StockRequest)
      → Leads (OfSession Started) (OfSession Ended) (handle env message request)
  unfolding handle canonical_purchase canonical_stock_out canonical_stock_in purchase_wrapper
      stock_out_wrapper stock_in_wrapper
  Leads-handle (StockRequest.post_purchase raw body) =
      search (route_rules, Leads-answered, Leads-purchase) depth 9
  Leads-handle (StockRequest.post_stock_out raw body) =
      search (route_rules, Leads-answered, Leads-stock_out) depth 9
  Leads-handle (StockRequest.post_stock_in raw body) =
      search (route_rules, Leads-answered, Leads-stock_in) depth 9
  Leads-handle (StockRequest.post_consume body) = Leads-answered _ (Leads-consume body)
  Leads-handle (StockRequest.post_adjust body) = Leads-answered _ (Leads-adjust_stock body)
  Leads-handle (StockRequest.old_purchase raw item_id uom body_of) =
      search (route_rules, Leads-answered, Leads-purchase) depth 12
  Leads-handle (StockRequest.old_stock_out raw item_id uom body_of) =
      search (route_rules, Leads-answered, Leads-stock_out) depth 12
  Leads-handle (StockRequest.old_stock_in raw item_id uom body_of) =
      search (route_rules, Leads-answered, Leads-stock_in) depth 12

  -- Where the database gives new rows keys that no row has, any sequence of stock requests,
  -- purchases, stock in, stock out, consumption and adjustments, whether they succeed or fail,
  -- leaves a database that is in balance and keeps the keys of its batches apart so.
  pub serve-IsSound :
      (requests : List StockRequest) (store : Store)
      → IsSound store.db
      → IsSound (serve env message requests store).db
  unfolding serve
  serve-IsSound [] store sound = sound
  serve-IsSound (request ∷ requests) store sound = serve-IsSound requests _ (
      (Leads-handle request).at (begin store)
        ((record { flushed = refl; keyed = sound.keyed }, sound.balanced), sound.keyed, sound))
