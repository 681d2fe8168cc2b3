-- ===== src/Checkout/Tests.antt =====
-- Checkouts of one event with one kind of ticket, run from the call that opens them.
use gathergo_backend.Base.{
  ◌+◌, ◌≤◌, ◌≡◌, refl, ◌⊎◌, true, false, none, some, List, [], ◌∷◌, arith, ◌==◌, if◌then◌else◌, ok,
  ◌>>=◌, ◌>>◌, find, any, count_if,
}
use gathergo_backend.Volunteer.{RegistrationType}
use gathergo_backend.Pricing.Fees.{paystack}
use gathergo_backend.Pricing.Summary.{over_100, PricingSummary}
use gathergo_backend.Pricing.Recorded.{null}
use gathergo_backend.Checkout.{
  Event, EventTicket, PurchasedTicketItem, Transaction, Db, ticket, pending, expired, success,
  refund_required, held, lapsed, not_ready, settlement_ready, clear,
}
use gathergo_backend.Checkout.Inventory.{reserved_ticket_quantity}
use gathergo_backend.Checkout.Issuance.{
  PlanItem, is_issued, plan_issuance, tickets_of_plan, add_all_sold, issue_tickets,
  with_confirmation,
}
use gathergo_backend.Checkout.Create.{
  Config, CreateCheckoutInput, new_transaction, with_hold, reserve_items, create,
}
use gathergo_backend.Checkout.Complete.{
  CollectedCheckoutInput, is_cancelled, with_success, complete,
}
use gathergo_backend.Checkout.Lifecycle.{with_cancellation, claim_initialization, expire_holds}
use gathergo_backend.Checkout.Settlement.{refund_amount, complete_outcome}
use gathergo_backend.Checkout.Replay.{complete_twice}
use gathergo_backend.Checkout.Exact.{issue_tickets-exact}
use gathergo_backend.Checkout.Keys.{create_twice}
use gathergo_backend.Checkout.Holds.{claim_initialization-once}
use gathergo_backend.Checkout.Stock.Reach.{here, next, creates, completes, Reach-never_oversold}

abbrev no_fees : PricingSummary
no_fees = record {
  gross_amount_kobo = 1000;
  gross_amount_naira = over_100 1000;
  charge_amount_kobo = 1000;
  charge_amount_naira = over_100 1000;
  buyer_fee_total_kobo = 0;
  buyer_fee_total_naira = over_100 0;
  buyer_provider_fee_kobo = 0;
  buyer_platform_fee_kobo = 0;
  provider_fee_kobo = 0;
  platform_fee_kobo = 0;
  creator_borne_provider_fee_kobo = 0;
  creator_borne_platform_fee_kobo = 0;
  creator_payable_kobo = 1000;
  creator_payable_naira = over_100 1000;
  platform_fee_fixed_kobo = 0;
  platform_fee_bps = 0;
}

abbrev concert : Event
concert = record {
  creator_id = 9;
  end_date = 5000;
  registration_type = RegistrationType.ticket;
  registration_attendees = none;
  registration_fee = none;
}

abbrev seat : EventTicket
seat = record { event_id = 1; price_kobo = 500; quantity = 3; sold = 0; is_visible = true }

abbrev start : Db
start = record {
  events = λ k. if k == 1 then some concert else none;
  event_tickets = λ k. if k == 7 then some seat else none;
  transactions = [];
  tickets = [];
  registrations = [];
}

abbrev config : Config
config = record { hold_seconds = 600; max_tickets = 10; is_uuid = λ s. true; code = λ k. "code" }

abbrev two_seats : PurchasedTicketItem
two_seats = record { event_ticket_id = 7; quantity = 2; ticket_name = "seat" }

abbrev order : CreateCheckoutInput
order = record {
  user_id = 20;
  event_id = 1;
  idempotency_key = "key";
  request_hash = "hash";
  payment_type = ticket;
  provider = paystack;
  metadata = record {
    pricing = no_fees;
    paid_tickets = record { item = two_seats; total_price_kobo = 1000 } ∷ [];
    free_tickets = [];
    provider_instructions = none;
    sponsorship = none;
  };
  fields = record {
    amount = 1000;
    platform_fee = 0;
    provider_fee = 0;
    creator_payable = 1000;
    status = pending;
    settlement_status = not_ready;
    risk_status = clear;
  };
}

abbrev payment : CollectedCheckoutInput
payment = record {
  transaction_id = 100;
  amount_kobo = 1000;
  provider_reference = none;
  provider_transaction_id = none;
  provider_payload = null;
  provider_fee_kobo = 0;
  settlement_status = settlement_ready;
  pricing = no_fees;
}

abbrev plan : List PlanItem
plan = record { event_ticket_id = 7; quantity = 2; already_issued = 0; quantity_to_issue = 2 } ∷ []

abbrev opened_row : Transaction
opened_row = with_hold 601000 plan (new_transaction order 100)

abbrev opened_db : Db
opened_db = record start { transactions = opened_row ∷ [] }

opens : create config start order 1000 100 ≡ ok (opened_db, opened_row)
unfolding create ◌>>=◌ ◌>>◌
opens = refl

abbrev done_row : Transaction
done_row = with_success payment 2000 (with_confirmation 2000 opened_row)

abbrev done_db : Db
done_db = record start {
  transactions = done_row ∷ [];
  tickets = tickets_of_plan config.code opened_row plan;
  event_tickets = add_all_sold plan start.event_tickets;
}

pays : complete config.code opened_db payment 2000 ≡ ok (done_db, done_row)
unfolding complete ◌>>=◌ ◌>>◌
pays = refl

abbrev dropped_row : Transaction
dropped_row =
    with_cancellation (record { status = held; expires_at = 601000; items = reserve_items plan })
      opened_row

abbrev dropped_db : Db
dropped_db = record opened_db { transactions = dropped_row ∷ [] }

-- The hold is over at its end.
expires_late :
    (expire_holds opened_db 601000).transactions
    ≡ record opened_row {
      status = expired;
      reservation =
          some (record { status = lapsed; expires_at = 601000; items = reserve_items plan });
    }
      ∷ []
unfolding expire_holds
expires_late = refl

Reach-never_oversold_example : 2 + reserved_ticket_quantity done_db.transactions 7 2000 none ≤ 3
unfolding add_all_sold
Reach-never_oversold_example =
    Reach-never_oversold config start done_db 2000 7 (record seat { sold = 2 }) refl
      (λ id k found. ground (arith, found))
      (next (next (here 0) (omega arith) (creates order 100 opened_row tt opens)) (omega arith)
        (completes payment done_row pays))
      refl

complete_twice_example : complete config.code done_db payment 3000 ≡ ok (done_db, done_row)
complete_twice_example =
    complete_twice config.code opened_db done_db payment payment 2000 3000 done_row refl pays

complete_outcome_example :
    ((done_row.status ≡ success)
      × (done_row.fulfilled_at ≡ some 2000)
      × (opened_row.amount ≡ payment.amount_kobo)
      × (is_cancelled opened_row.reservation ≡ false))
    ⊎ ((done_row.status ≡ refund_required)
        × (refund_amount done_row.refund ≡ some 1000)
        × (done_row.creator_payable ≡ 0)
        × (done_db.tickets ≡ opened_db.tickets)
        × (done_db.registrations ≡ opened_db.registrations)
        × (done_db.event_tickets ≡ opened_db.event_tickets))
unfolding find
complete_outcome_example =
    complete_outcome config.code 2000 payment opened_db done_db opened_row done_row refl refl pays

issues :
    issue_tickets config.code opened_db opened_row plan
    ≡ ok (record opened_db {
      tickets = tickets_of_plan config.code opened_row plan;
      event_tickets = add_all_sold plan opened_db.event_tickets;
    })
unfolding issue_tickets ◌>>=◌
issues = refl

issue_tickets-exact_example :
    count_if (is_issued 100 7) (tickets_of_plan config.code opened_row plan) ≡ 2
unfolding plan_issuance find any ◌>>=◌
issue_tickets-exact_example =
    issue_tickets-exact config.code opened_row 7 opened_db
      (record opened_db {
        tickets = tickets_of_plan config.code opened_row plan;
        event_tickets = add_all_sold plan opened_db.event_tickets;
      })
      (two_seats ∷ []) plan two_seats refl refl refl issues

create_twice_example : create config opened_db order 1500 101 ≡ ok (opened_db, opened_row)
create_twice_example =
    create_twice config start opened_db order 1000 1500 100 101 opened_row tt opens

claim_initialization-once_example :
    ((claim_initialization (claim_initialization opened_db 100 1100).0 100 1200).1 ≡ false)
    × ((claim_initialization (claim_initialization opened_db 100 1100).0 100 1200).0.transactions
        ≡ (claim_initialization opened_db 100 1100).0.transactions)
claim_initialization-once_example = claim_initialization-once opened_db 100 1100 1200
