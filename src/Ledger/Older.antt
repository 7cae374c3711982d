-- ===== src/Ledger/Older.antt =====
-- core/appdb/ledger.py: the ORDER BY of the batches, by their times and then their keys.
use tgc_bus_core.Base.{
  ◌≤◌, ◌<◌, ◌≡◌, ◌⊎◌, inl, inr, true, false, Bool-cases, ltb, ltb→lt, ◌==◌, ==→eq, split_and, arith,
}
use tgc_bus_core.StockTables.{ItemBatch}
use tgc_bus_core.Ledger.{batch_before}

-- A batch of an earlier time, or of the same time and with no greater key.
abbrev pub IsOlder : ItemBatch → ItemBatch → Type 0
IsOlder a b = (a.created_at < b.created_at) ⊎ ((a.created_at ≡ b.created_at) × (a.id ≤ b.id))

pub IsOlder-compose : (p q r : ItemBatch) → IsOlder p q → IsOlder q r → IsOlder p r
IsOlder-compose p q r (inl h) (inl k) = inl (omega arith)
IsOlder-compose p q r (inl h) (inr (e, k)) = inl (omega arith)
IsOlder-compose p q r (inr (e, h)) (inl k) = inl (omega arith)
IsOlder-compose p q r (inr (e, h)) (inr (e', k)) = inr (omega arith, omega arith)

pub before-IsOlder : (q r : ItemBatch) → batch_before q r ≡ true → IsOlder q r
before-IsOlder q r h = elim (Bool-cases (ltb q.created_at r.created_at)) [
  | inl sooner ↦ inl (ltb→lt _ _ sooner)
  | inr other ↦
      let (same, least) =
        split_and (q.created_at == r.created_at) (ltb q.id r.id) (rw other at h) in
      inr (==→eq _ _ same, omega (arith, ltb→lt _ _ least))
]

pub after-IsOlder : (q r : ItemBatch) → batch_before q r ≡ false → IsOlder r q
after-IsOlder q r h = elim (Bool-cases (ltb r.created_at q.created_at)) [
  | inl sooner ↦ inl (ltb→lt _ _ sooner)
  | inr other ↦ inr (ground arith, ground arith)
]
