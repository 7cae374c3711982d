-- ===== src/Invoices/Numbers.antt =====
-- Invoice numbers go up.
use tgc_bus_core.Base.{ℕ, ◌+◌, ◌≤◌, ◌≡◌, ap, max, some, arith, get_or, inl, inr, Option-cases}
use tgc_bus_core.Effects.{Action, pure, ◌>>◌, ok, err, integrity_error}
use tgc_bus_core.InvoiceTables.{InvoiceSession, Database, save}
use tgc_bus_core.Invoices.{set_sequence, start_sequence, generate_invoice_number}

module _ (database : Database) where
  -- What follows once the sequence is there.
  abbrev advance : ℕ → Action InvoiceSession ℕ
  advance stored = set_sequence (max 1001 stored + 1) >> (save database >> pure (max 1001 stored))

  advance_lem :
      (stored n : ℕ) (s : InvoiceSession)
      → (advance stored s).0 ≡ ok n
      → (max 1001 stored ≡ n)
        × ((advance stored s).1.rows.sequence ≡ some (n + 1))
        × ((advance stored s).1.flushed.sequence ≡ some (n + 1))
  unfolding set_sequence
  advance_lem stored n s given =
      elim (Option-cases
        (database.refuse (record s.rows { sequence = some (max 1001 stored + 1) }))) [
          | inl taken ↦
              let returned : ok (max 1001 stored) ≡ ok n = rw taken at given in
              let same : max 1001 stored ≡ n = cc in
              rw taken (same, ap (λ k. some (k + 1)) same, ap (λ k. some (k + 1)) same)
          | inr (d, refused) ↦ (let raised : err integrity_error ≡ ok n = rw refused at given in cc)
        ]

  -- A number that is given out is at least 1001 and at least the one that the sequence was at, and
  -- the sequence goes on behind it, in the session's objects and in what is flushed.
  pub generate_invoice_number_rises :
      (s : InvoiceSession) (n : ℕ)
      → (generate_invoice_number database s).0 ≡ ok n
      → let t = (generate_invoice_number database s).1 in
        (1001 ≤ n)
        × (get_or s.rows.sequence 1001 ≤ n)
        × (t.rows.sequence ≡ some (n + 1))
        × (t.flushed.sequence ≡ some (n + 1))
  unfolding generate_invoice_number start_sequence set_sequence
  generate_invoice_number_rises s n given = elim (Option-cases s.rows.sequence) [
    | inr (m, at) ↦
        let (same, rows, flushed) = advance_lem m n s (rw at at given) in
        rw at (omega arith, omega arith, rows, flushed)
    | inl missing ↦ elim (Option-cases (database.refuse (record s.rows { sequence = some 1001 }))) [
      | inl taken ↦
          let started = record s.rows { sequence = some 1001 } in
          let (same, rows, flushed) =
            advance_lem 1001 n (record s { rows = started; flushed = started })
              (rw (missing, taken) at given) in
          rw (missing, taken) (omega arith, omega arith, rows, flushed)
      | inr (d, refused) ↦
          (let raised : err integrity_error ≡ ok n = rw (missing, refused) at given in cc)
    ]
  ]
