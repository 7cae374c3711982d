-- ===== src/Invoices/Sums.antt =====
-- The sums over the lines of an invoice (core/services/invoices.py).
use tgc_bus_core.Base.{
  ℕ, ◌+◌, ◌≡◌, ap, sym, ◌∙◌, arith, List, [], ◌∷◌, sum_by, if◌then◌else◌, inl, inr,
}
use tgc_bus_core.Effects.{Result, Result-cases, ok, err}
use tgc_bus_core.InvoiceTables.{InvoiceLine, InvoiceSession}
use tgc_bus_core.Invoices.{line_subtotal_cents_of, price_line, set_lines, sum_lines}

-- The cents that a result holds.
abbrev pub cents_of : Result ℕ → ℕ
cents_of (ok n) = n
cents_of (err _) = 0

-- What a line comes to, and what of it is taxable.
abbrev pub line_value : InvoiceLine → ℕ
line_value l = cents_of (line_subtotal_cents_of l)

abbrev pub taxable_value : InvoiceLine → ℕ
taxable_value l = if l.taxable then line_value l else 0

price_line_value :
    (l : InvoiceLine) (s : InvoiceSession) (n : ℕ) → (price_line l s).0 ≡ ok n → n ≡ line_value l
unfolding price_line set_lines
price_line_value l s n given = elim (Result-cases (line_subtotal_cents_of l)) [
  | inl (m, priced) ↦
      let returned : ok m ≡ ok n = rw priced at given in
      let same : m ≡ n = cc in rw priced (sym same)
  | inr (e, refused) ↦ (let raised : err e ≡ ok n = rw refused at given in cc)
]

-- Where the loop over the lines of an invoice returns, its first sum is what all lines come to, and
-- its second is what the taxable lines come to.
pub sum_lines_values :
    (lines : List InvoiceLine) (s : InvoiceSession) (a b : ℕ)
    → (sum_lines lines s).0 ≡ ok (a, b)
    → (a ≡ sum_by line_value lines) × (b ≡ sum_by taxable_value lines)
unfolding sum_lines
sum_lines_values [] s a b given =
    let pair : (0, 0) ≡ (a, b) = cc in
    (ap (λ (p : ℕ × ℕ). p.0) (sym pair), ap (λ (p : ℕ × ℕ). p.1) (sym pair))
sum_lines_values (l ∷ lines) s a b given = elim (Result-cases (price_line l s).0) [
  | inr (e, refused) ↦ (let raised : err e ≡ ok (a, b) = rw refused at given in cc)
  | inl (n, priced) ↦
      let t = (price_line l s).1 in
      elim (Result-cases (sum_lines lines t).0) [
        | inr (e, refused) ↦ (let raised : err e ≡ ok (a, b) = rw (priced, refused) at given in cc)
        | inl ((c, d), summed) ↦
            let returned : ok (n + c, if l.taxable then n + d else d) ≡ ok (a, b) =
              rw (priced, summed) at given in
            let pair : (n + c, if l.taxable then n + d else d) ≡ (a, b) = cc in
            let (first, second) = sum_lines_values lines t c d summed in
            let value = price_line_value l s n priced in
            (
              ap (λ (p : ℕ × ℕ). p.0) (sym pair) ∙ omega (arith, first, value),
              ap (λ (p : ℕ × ℕ). p.1) (sym pair) ∙ ground (arith, second, value),
            )
      ]
]
