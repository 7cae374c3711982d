-- ===== src/StockRoutes/Refused.antt =====
-- core/api/routes/ledger_api.py: a request for stock that is answered by an error has changed no
-- table.
use tgc_bus_core.Base.{ℕ, ◌≡◌, refl, String, Option, none, some}
use tgc_bus_core.Decimal.{Number}
use tgc_bus_core.Effects.{Error, Result, ok, err, Action, Env, lift, pure, continue, ◌>>=◌}
use tgc_bus_core.Effects.Keeps.{Keeps, keeps_rules}
use tgc_bus_core.StockTables.{StockDb}
use tgc_bus_core.StockMutation.{StockState}
use tgc_bus_core.StockMutation.Balance.{OfSession}
use tgc_bus_core.StockMutation.Stable.{
  IsStable, Keeps-stock_in, Keeps-stock_out, Keeps-purchase, Commits, Commits-stable,
}
use tgc_bus_core.StockRoutes.{
  finish, in_transaction, default_uom_for_item, uom_or_default, PurchaseCanonicalIn,
  StockOutCanonicalIn, StockInCanonicalIn, ConsumeIn, AdjustmentInput, to_base_qty_for_item,
  purchase, stock_out, stock_in, canonical_purchase, canonical_stock_out, canonical_stock_in,
  consume, raise_stock, lower_stock, adjust_stock, purchase_wrapper, stock_out_wrapper,
  stock_in_wrapper,
}
use tgc_bus_core.StockRoutes.Requests.{StockRequest, handle, Store, begin}

-- Where the action raises, `d` is still what is committed.
pub record Undoes {A : Type 0} (d : StockDb) (m : Action StockState A) : Type 0 where
  pub at :
      (t : StockState) (e : Error)
      → OfSession (Commits d) t
      → (m t).0 ≡ err e
      → OfSession (Commits d) (m t).1

module _ {A : Type 0} (d : StockDb) where
  undone :
      (answer : Error → Error) (r : Result A) (u : StockState) (e : Error)
      → OfSession (Commits d) u
      → (finish answer r u).0 ≡ err e
      → OfSession (Commits d) (finish answer r u).1
  undone answer (ok a) u e same h = cc
  undone answer (err _) u e same h = unfold Commits in (unfold Commits in same)

  pub Undoes-in_transaction :
      (answer : Error → Error) (body : Action StockState A)
      → Keeps (OfSession (Commits d)) body
      → Undoes d (in_transaction answer body)
  unfolding in_transaction
  Undoes-in_transaction answer body k = record {
    at = λ t e same h. let (r, u) = body t in undone answer r u e (k.at t same) h;
  }

  pub Undoes-lift : (r : Result A) → Undoes d (lift r)
  Undoes-lift r = record { at = λ t e same h. same }

module _ {A B : Type 0} (d : StockDb) where
  pub Undoes-before :
      (m : Action StockState A) (f : A → Action StockState B)
      → Keeps (OfSession (Commits d)) m
      → ((a : A) → Undoes d (f a))
      → Undoes d (m >>= f)
  Undoes-before m f k us = record {
    at = λ t e same h. let (r, u) = m t in go r u e (k.at t same) h;
  }
    where
      go :
          (r : Result A) (u : StockState) (e : Error)
          → OfSession (Commits d) u
          → (continue r f u).0 ≡ err e
          → OfSession (Commits d) (continue r f u).1
      go (ok a) u e same h = (us a).at u e same h
      go (err _) u e same h = same

  pub Undoes-answer :
      (m : Action StockState A) (f : A → B) → Undoes d m → Undoes d (m >>= λ a. pure (f a))
  Undoes-answer m f k = record {
    at = λ t e same h. let (r, u) = m t in go r u e (λ e' raised. k.at t e' same raised) h;
  }
    where
      go :
          (r : Result A) (u : StockState) (e : Error)
          → ((e' : Error) → r ≡ err e' → OfSession (Commits d) u)
          → (continue r (λ a. pure (f a)) u).0 ≡ err e
          → OfSession (Commits d) (continue r (λ a. pure (f a)) u).1
      go (ok a) u e same h = cc
      go (err e') u e same h = same e' refl

module _ (env : Env) (message : Error → String) (d : StockDb) where
  Keeps-to_base_qty :
      (item_id : ℕ) (q : Number) (uom : String)
      → Keeps (OfSession (Commits d)) (to_base_qty_for_item env message item_id q uom)
  unfolding to_base_qty_for_item
  Keeps-to_base_qty item_id q uom = search keeps_rules depth 9

  Keeps-uom_or_default :
      (item_id : ℕ) (uom : Option String)
      → Keeps (OfSession (Commits d)) (uom_or_default item_id uom)
  unfolding uom_or_default default_uom_for_item
  Keeps-uom_or_default item_id none = search keeps_rules depth 9
  Keeps-uom_or_default item_id (some uom) = search keeps_rules

  stable : IsStable env (Commits d)
  stable = Commits-stable env d

  ruleset undo_rules = (
    keeps_rules, Undoes-before, Undoes-in_transaction, Undoes-answer, Keeps-to_base_qty,
    Keeps-uom_or_default, Keeps-stock_in, Keeps-stock_out, Keeps-purchase, stable,
  )

  Undoes-purchase : (body : PurchaseCanonicalIn) → Undoes d (purchase env message body)
  unfolding purchase
  Undoes-purchase body = search undo_rules depth 9

  Undoes-stock_out : (body : StockOutCanonicalIn) → Undoes d (stock_out env message body)
  unfolding stock_out
  Undoes-stock_out body = search undo_rules depth 9

  Undoes-stock_in : (body : StockInCanonicalIn) → Undoes d (stock_in env message body)
  unfolding stock_in
  Undoes-stock_in body = search undo_rules depth 9

  Undoes-consume : (body : ConsumeIn) → Undoes d (consume env message body)
  unfolding consume
  Undoes-consume body = search undo_rules depth 9

  Keeps-raise_stock :
      (body : AdjustmentInput) → Keeps (OfSession (Commits d)) (raise_stock env message body)
  unfolding raise_stock
  Keeps-raise_stock body = search undo_rules depth 9

  Keeps-lower_stock :
      (body : AdjustmentInput) → Keeps (OfSession (Commits d)) (lower_stock env message body)
  unfolding lower_stock
  Keeps-lower_stock body = search undo_rules depth 9

  Undoes-adjust_stock : (body : AdjustmentInput) → Undoes d (adjust_stock env message body)
  unfolding adjust_stock
  Undoes-adjust_stock body = search (undo_rules, Keeps-raise_stock, Keeps-lower_stock) depth 9

  pub Undoes-handle : (request : StockRequest) → Undoes d (handle env message request)
  unfolding handle canonical_purchase canonical_stock_out canonical_stock_in purchase_wrapper
      stock_out_wrapper stock_in_wrapper
  Undoes-handle (StockRequest.post_purchase raw body) = search (undo_rules, Undoes-purchase) depth 9
  Undoes-handle (StockRequest.post_stock_out raw body) =
      search (undo_rules, Undoes-stock_out) depth 9
  Undoes-handle (StockRequest.post_stock_in raw body) = search (undo_rules, Undoes-stock_in) depth 9
  Undoes-handle (StockRequest.post_consume body) = search (undo_rules, Undoes-consume) depth 9
  Undoes-handle (StockRequest.post_adjust body) = search (undo_rules, Undoes-adjust_stock) depth 9
  Undoes-handle (StockRequest.old_purchase raw item_id uom body_of) =
      search (undo_rules, Undoes-purchase) depth 12
  Undoes-handle (StockRequest.old_stock_out raw item_id uom body_of) =
      search (undo_rules, Undoes-stock_out) depth 12
  Undoes-handle (StockRequest.old_stock_in raw item_id uom body_of) =
      search (undo_rules, Undoes-stock_in) depth 12

-- A request for stock that is answered by an error leaves the database as it was before it.
pub handle_refused :
    (env : Env) (message : Error → String) (request : StockRequest) (store : Store) (e : Error)
    → (handle env message request (begin store)).0 ≡ err e
    → (handle env message request (begin store)).1.session.committed ≡ store.db
handle_refused env message request store e h =
    unfold Commits in ((Undoes-handle env message store.db request).at (begin store) e refl h)
