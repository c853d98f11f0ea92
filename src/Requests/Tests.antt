-- ===== src/Requests/Tests.antt =====
-- A board with one request and one answer.
use nivra.Prelude.{◌≤◌, true, none, [], ◌∷◌, arith}
use nivra.Prelude.Int.{pos}
use nivra.Requests.Board.{ItemRequest, Store, NewRequest, open_now, open_count, create}
use nivra.Requests.Limits.{IsOnce}
use nivra.Requests.Reached.{start, more, creates, reach-few_open}

abbrev new_request : NewRequest
new_request = record {
  id = 3;
  start_date = none;
  end_date = none;
  today = pos 0;
  verified = true;
  category_ok = true;
  within_limit = true;
}

abbrev nothing : Store
nothing = record { requests = []; responses = [] }

reach-few_open_example :
    (open_count 1 (pos 9) (create nothing 1 new_request (pos 5)).0.requests ≤ 5)
    × IsOnce (create nothing 1 new_request (pos 5)).0.responses
reach-few_open_example =
    reach-few_open (pos 9) 1 (more (start (pos 0)) (omega arith) (creates 1 new_request))
      (omega arith)

abbrev request : ItemRequest
request = record {
  id = 3;
  borrower = 1;
  status = open_now;
  start_date = none;
  end_date = none;
  expires_at = pos 100;
}

abbrev answered : Store
answered = record {
  requests = request ∷ [];
  responses =
      record { request = 3; lender = 2; listing = 20 }
      ∷ record { request = 3; lender = 8; listing = 21 }
      ∷ [];
}
