-- ===== src/Payouts/Tests.antt =====
-- A transfer of 270 rupees that fails once and is then sent.
use nivra.Prelude.{◌≡◌, refl, true, false, none, [], ok}
use nivra.Prelude.Int.{pos, ◌-ℤ◌}
use nivra.Ledger.{lender_payable, account_balance}
use nivra.Payouts.Transfers.{
  awaiting_account, failed, Store, refuses, send, requested, set_status, claim,
}
use nivra.Payouts.Lifecycle.{Reach, start, more, sends, paid_out, reach-paid_out}

abbrev waiting : Store
waiting = record {
  row = record {
    amount = 27000;
    held = true;
    from_deposit = false;
    status = awaiting_account;
    provider_id = none;
    attempts = 0;
  };
  booking = 7;
  ledger = [];
}

abbrev failing : Store
failing = set_status failed (claim waiting)

fails : send waiting true refuses ≡ ok failing
unfolding send requested
fails = refl

reached : Reach waiting failing
reached = more start (sends true refuses refl fails)

reach-paid_out_example :
    account_balance [] lender_payable
    ≡ account_balance [] lender_payable -ℤ pos (paid_out failing.row)
reach-paid_out_example = reach-paid_out waiting failing refl refl reached
