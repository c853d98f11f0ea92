-- ===== src/Refunds/Tests.antt =====
-- A captured payment of 800 rupees and a refund of 650.
use nivra.Prelude.{◌≤◌, ◌≡◌, refl, true, some, [], ◌∷◌, ok, arith}
use nivra.Prelude.Int.{pos, ◌+ℤ◌}
use nivra.Ledger.{Amounts, gateway, account_balance, cash_of}
use nivra.Refunds.Rows.{Refund, Store, captured, cancellation, counted, parts}
use nivra.Refunds.Service.{Reply, accepts, refuses, attempt, create, new_refund, is_claimable}
use nivra.Refunds.Bounds.{IsUnique, create-counted}
use nivra.Refunds.Sending.{attempt-accepted}

abbrev back : Amounts
back = record { rent = 15000; fee = 0; deposit = 50000 }

abbrev row : Refund
row = new_refund 1 65000 (parts cancellation back 0)

abbrev paid : Store
paid = record {
  amount = 80000;
  status = captured;
  booking = 7;
  rent = 30000;
  refunds = [];
  ledger = [];
  asked = [];
}

abbrev asked_back : Store
asked_back = record paid { refunds = row ∷ [] }

create-counted_example :
    counted (create paid 1 (parts cancellation back 0) (pos 65000) refuses).0.refunds ≤ 80000
unfolding IsUnique counted
create-counted_example =
    create-counted paid 1 (parts cancellation back 0) (pos 65000) refuses tt refl (omega arith)

attempt-accepted_example :
    let (after, result) = attempt asked_back 1 (accepts 55 true) in
    (result ≡ ok (some 1))
    × (account_balance after.ledger gateway ≡ account_balance [] gateway +ℤ cash_of back 0)
    × ((reply : Reply) → attempt after 1 reply ≡ (after, ok (some 1)))
unfolding is_claimable
attempt-accepted_example =
    attempt-accepted asked_back row cancellation back 0 55 true refl refl refl (omega arith)
      (omega arith)
