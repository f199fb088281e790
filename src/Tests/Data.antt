-- ===== src/Tests/Data.antt =====
-- One event with one zone of two seats, one user, and an order of a seat in each state.
use pruet_web_dev.Base.{ℕ, zero, suc, false, none, some, [], ◌∷◌, if◌then◌else◌}
use pruet_web_dev.Base.Int.{pos}
use pruet_web_dev.Text.{Str, text, str_eq}
use pruet_web_dev.Models.{
  Role, User, Order, OrderStatus, Ticket, TicketStatus, Payment, PaymentStatus, empty_pg,
}
use pruet_web_dev.Mongo.{Zone, EventDoc, Mongo, answered}
use pruet_web_dev.Service.{World, Env}
use pruet_web_dev.Orders.{OrderCreate}
use pruet_web_dev.Orders.Pricing.{ValidatedItem}
use pruet_web_dev.Payments.{PaymentCreate}
use pruet_web_dev.Seats.{ZoneRequest, Reserved, SeatGroup}

abbrev pub gala_id : Str
gala_id = text "ab"

-- `token n` has n characters, so the tokens differ
abbrev tokens : ℕ → Str
tokens zero = text "K"
tokens (suc n) = 65 ∷ tokens n

-- every call is answered, and both databases are up
abbrev pub calm : ℕ → Env
calm now = record {
  object_id = λ raw. if str_eq raw gala_id then some 7 else none;
  hex = λ _. gala_id;
  net = λ _. answered;
  pg_fault = none;
  late_fault = none;
  read_fault = none;
  reread_fault = none;
  names_key = λ _. false;
  now = now;
  token = tokens;
}

abbrev pub hall : Zone
hall = record { name = text "A"; price = 100000000; capacity = 2; booked_count = pos 1 }

abbrev pub gala : EventDoc
gala = record {
  id = 7;
  title = text "Gala";
  category = text "Concert";
  date_time = 5000;
  organizer_id = none;
  status = text "upcoming";
  zones = hall ∷ [];
}

abbrev pub documents : Mongo
documents = record { events = gala ∷ []; activity_logs = []; guarded = false; calls = 0 }

abbrev pub jamie : User
jamie = record {
  id = 1;
  email = text "j@m";
  username = text "jam";
  hashed_password = text "h";
  full_name = some (text "Jamie M");
  first_name = none;
  last_name = none;
  role = Role.fan;
  created_at = 0;
  updated_at = 0;
}

-- nothing is booked
abbrev pub opened : World
opened = record { pg = record empty_pg { users = jamie ∷ []; next_id = 2 }; mongo = documents }

abbrev pub wanted : ValidatedItem
wanted = record {
  event_id = gala_id;
  event_oid = 7;
  event_title = text "Gala";
  seat_zone = text "A";
  seat_number = some (text "1");
  price = 100000000;
  capacity = 2;
}

abbrev pub booking : OrderCreate
booking = record {
  user_id = 1;
  payment_method = text "promptpay";
  items =
      record {
        event_id = gala_id;
        seat_zone = text "a";
        seat_number = some (text "1");
        price = none;
      }
      ∷ [];
}

abbrev pub one_seat : Reserved
one_seat = record { event_oid = 7; zone_name = text "A"; quantity = 1 }

abbrev pub one_seat_request : ZoneRequest
one_seat_request = record {
  event_oid = 7;
  zone_name = text "A";
  quantity = 1;
  capacity = 2;
  title = text "Gala";
}

abbrev pub one_seat_group : SeatGroup
one_seat_group = record { event_id = gala_id; seat_zone = text "A"; seats = 1 }

abbrev pub full_price : PaymentCreate
full_price = record { amount = 100; provider = text "promptpay"; provider_tx_id = none }

-- an order of one seat that is held until 1600
abbrev pub pending_order : Order
pending_order = record {
  id = 2;
  order_number = text "ORD";
  user_id = 1;
  total_amount = 100;
  status = OrderStatus.pending;
  payment_method = text "promptpay";
  expires_at = some 1600;
  idempotency_key = none;
  created_at = 1000;
}

abbrev pub held_ticket : Ticket
held_ticket = record {
  id = 3;
  order_id = 2;
  event_id = gala_id;
  ticket_code = text "TKT";
  seat_zone = text "A";
  seat_number = some (text "1");
  price = 100;
  status = TicketStatus.held;
  created_at = 1000;
}

abbrev pub other_ticket : Ticket
other_ticket = record held_ticket {
  id = 4;
  ticket_code = text "TKU";
  seat_number = some (text "2");
}

abbrev pub held_seat : World
held_seat = record opened {
  pg = record empty_pg {
    users = jamie ∷ [];
    orders = pending_order ∷ [];
    tickets = held_ticket ∷ [];
    next_id = 4;
  };
}

abbrev pub completed_charge : Payment
completed_charge = record {
  id = 9;
  order_id = 2;
  payment_reference = text "PAY";
  amount = 100;
  provider = text "promptpay";
  status = PaymentStatus.completed;
  provider_tx_id = none;
  created_at = 1200;
}
