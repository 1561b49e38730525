-- ===== src/Billing/Rows.antt =====
-- The two tables: what a lookup finds after an upsert and after an insert.
use obrasignal.Base.{◌≡◌, String, none, some, List, [], ◌∷◌, ◌++◌, if◌then◌else◌, arith}
use obrasignal.Base.Text.{◌==◌, eq_iff}
use obrasignal.Billing.{Row, Receipt}
use obrasignal.Billing.Projection.{upsert, find_row, find_receipt}

pub find_row-upsert :
    (a : String) (r : Row) (rows : List Row)
    → find_row a (upsert r rows) ≡ (if r.account_id == a then some r else find_row a rows)
unfolding upsert
find_row-upsert a r [] = ground arith
find_row-upsert a r (q ∷ rows) = ground (
  arith,
  eq_iff q.account_id r.account_id,
  eq_iff r.account_id a,
  eq_iff q.account_id a,
  find_row-upsert a r rows,
)

-- A receipt that is there is found again after any insert.
pub find_receipt-append_some :
    (i : String) (rs : List Receipt) (r seen : Receipt)
    → find_receipt i rs ≡ some seen
    → find_receipt i (rs ++ r ∷ []) ≡ some seen
find_receipt-append_some i [] r seen h = cc
find_receipt-append_some i (q ∷ rs) r seen h = ground (arith, find_receipt-append_some i rs r seen)

pub find_receipt-append_none :
    (i : String) (rs : List Receipt) (r : Receipt)
    → find_receipt i rs ≡ none
    → find_receipt i (rs ++ r ∷ []) ≡ (if r.event_id == i then some r else none)
find_receipt-append_none i [] r h = ground arith
find_receipt-append_none i (q ∷ rs) r h = ground (arith, find_receipt-append_none i rs r)

pub find_row-account :
    (a : String) (rows : List Row) (r : Row) → find_row a rows ≡ some r → r.account_id ≡ a
find_row-account a [] r h = cc
find_row-account a (q ∷ rows) r h = ground (arith, eq_iff q.account_id a, find_row-account a rows r)
