-- ===== src/Purchases/Balance.antt =====
-- A purchase keeps the ledger in balance, and checks its lines before it writes any.
use tgc_bus_core.Base.{◌≡◌, refl, String, List, [], ◌∷◌, ◌++◌, length, ltb, Bool-cases, inl, inr}
use tgc_bus_core.Effects.{err, Error, Env, Result-cases, value_error}
use tgc_bus_core.Effects.Keeps.{Keeps, Keeps-raise_if, keeps_rules, Leads-bind}
use tgc_bus_core.Ledger.Balance.{IsBalanced}
use tgc_bus_core.StockMutation.{StockState}
use tgc_bus_core.StockMutation.Balance.{Balanced, OfSession, balance_rules}
use tgc_bus_core.Purchases.{
  PurchaseLine, PreparedLine, PurchaseInfo, provided_purchase_source_ids, prepare_line,
  prepare_lines, buy_line, buy_lines, perform_purchase_base,
}

-- Checking the lines writes nothing, so it keeps whatever holds.
module _ (P : StockState → Type 0) where
  prepare_line-Keeps : (line : PurchaseLine) → Keeps P (prepare_line line)
  unfolding prepare_line
  prepare_line-Keeps line = search keeps_rules depth 9

  pub prepare_lines-Keeps : (lines : List PurchaseLine) → Keeps P (prepare_lines lines)
  unfolding prepare_lines
  prepare_lines-Keeps [] = search keeps_rules
  prepare_lines-Keeps (line ∷ lines) =
      Leads-bind _ _ (prepare_line-Keeps line)
        (λ prepared. Leads-bind _ _ (prepare_lines-Keeps lines) (λ rest. search keeps_rules))

module _ (env : Env) (info : PurchaseInfo) (source_id : String) where
  buy_line-Keeps :
      (line : PreparedLine) → Keeps (OfSession Balanced) (buy_line env info source_id line)
  unfolding buy_line
  buy_line-Keeps line = search balance_rules depth 9

  buy_lines-Keeps :
      (lines : List PreparedLine) → Keeps (OfSession Balanced) (buy_lines env info source_id lines)
  unfolding buy_lines
  buy_lines-Keeps [] = search keeps_rules
  buy_lines-Keeps (line ∷ lines) =
      Leads-bind _ _ (buy_line-Keeps line)
        (λ bought. Leads-bind _ _ (buy_lines-Keeps lines) (λ rest. search keeps_rules))

pub perform_purchase_base-Keeps :
    (env : Env) (info : PurchaseInfo) (lines : List PurchaseLine)
    → Keeps (OfSession Balanced) (perform_purchase_base env info lines)
unfolding perform_purchase_base
perform_purchase_base-Keeps env info lines = Leads-bind _ _ (Keeps-raise_if _ _) λ _.
    Leads-bind _ _ (prepare_lines-Keeps (OfSession Balanced) lines) (λ prepared.
      Leads-bind _ _ (buy_lines-Keeps env info _ prepared) (λ bought. search keeps_rules))

-- A purchase keeps the ledger in balance, whatever its lines, and whether it returns or raises.
pub perform_purchase_base-IsBalanced :
    (env : Env) (info : PurchaseInfo) (lines : List PurchaseLine) (t : StockState)
    → IsBalanced t.session.rows
    → IsBalanced (perform_purchase_base env info lines t).1.session.rows
perform_purchase_base-IsBalanced env info lines t balanced =
    (perform_purchase_base-Keeps env info lines).at t balanced

module _ (line : PurchaseLine) (after : List PurchaseLine) (t : StockState) (e : Error)
    (bad : (prepare_line line t).0 ≡ err e) where
  unwritten : (l : PurchaseLine) → (prepare_line l t).1 ≡ t
  unwritten l = (prepare_line-Keeps (λ u. u ≡ t) l).at t refl

  prepare_lines-stops :
      (before : List PurchaseLine)
      → (e' : Error) × (prepare_lines (before ++ line ∷ after) t ≡ (err e', t))
  unfolding prepare_lines
  prepare_lines-stops [] = (e, rw (bad, unwritten line) refl)
  prepare_lines-stops (l ∷ before) =
      let (e', rest) = prepare_lines-stops before in
      elim (Result-cases (prepare_line l t).0) [
        | inl (prepared, good) ↦ (e', rw (good, unwritten l, rest) refl)
        | inr (e'', failed) ↦ (e'', rw (failed, unwritten l) refl)
      ]

-- A line that does not pass the checks, wherever it stands among the lines, makes the whole purchase
-- raise with nothing written: no batch, movement, cash event or journal entry.
pub perform_purchase_base_invalid :
    (env : Env) (info : PurchaseInfo) (before after : List PurchaseLine) (line : PurchaseLine)
    (t : StockState) (e : Error)
    → (prepare_line line t).0 ≡ err e
    → (e' : Error) × (perform_purchase_base env info (before ++ line ∷ after) t ≡ (err e', t))
unfolding perform_purchase_base
perform_purchase_base_invalid env info before after line t e bad =
    let lines = before ++ line ∷ after in
    let (e', stops) = prepare_lines-stops line after t e bad before in
    elim (Bool-cases (ltb 1 (length (provided_purchase_source_ids [] lines)))) [
      | inl several ↦ (value_error "multiple_purchase_source_ids_not_supported", rw several refl)
      | inr few ↦ (e', rw (few, stops) refl)
    ]
