-- ===== src/Models.antt =====
-- app/models/sql_models.py: the PostgreSQL tables as lists of rows, with the sequences that number
-- them. Amounts are whole cents, times are whole seconds.
pub mod Guards
use pruet_web_dev.Base.{ℕ, Bool, true, false, Option, none, List, []}
use pruet_web_dev.Text.{Str}

pub data OrderStatus : Type 0 where
  pending paid confirmed expired cancelled : OrderStatus

pub data TicketStatus : Type 0 where
  held valid used refunded cancelled : TicketStatus

pub data PaymentStatus : Type 0 where
  pending completed failed refunded : PaymentStatus

pub data OutboxStatus : Type 0 where
  pending processed failed : OutboxStatus

pub data Role : Type 0 where
  fan organizer admin : Role

pub record User : Type 0 where
  pub id : ℕ
  pub email : Str
  pub username : Str
  pub hashed_password : Str
  pub full_name : Option Str
  pub first_name : Option Str
  pub last_name : Option Str
  pub role : Role
  pub created_at : ℕ
  pub updated_at : ℕ

pub record Order : Type 0 where
  pub id : ℕ
  pub order_number : Str
  pub user_id : ℕ
  pub total_amount : ℕ
  pub status : OrderStatus
  pub payment_method : Str
  pub expires_at : Option ℕ
  pub idempotency_key : Option Str
  pub created_at : ℕ

pub record Ticket : Type 0 where
  pub id : ℕ
  pub order_id : ℕ
  pub event_id : Str
  pub ticket_code : Str
  pub seat_zone : Str
  pub seat_number : Option Str
  pub price : ℕ
  pub status : TicketStatus
  pub created_at : ℕ

pub record Payment : Type 0 where
  pub id : ℕ
  pub order_id : ℕ
  pub payment_reference : Str
  pub amount : ℕ
  pub provider : Str
  pub status : PaymentStatus
  pub provider_tx_id : Option Str
  pub created_at : ℕ

-- `event_type` with the JSON `payload` that the services write under it
pub data Announcement : Type 0 where
  seat_held : ℕ → Str → ℕ → Announcement
  seat_hold_expired : ℕ → Str → Str → Announcement
  order_paid : ℕ → Str → Str → ℕ → ℕ → Announcement

pub record OutboxEvent : Type 0 where
  pub id : ℕ
  pub event : Announcement
  pub aggregate_id : ℕ
  pub status : OutboxStatus
  pub created_at : ℕ
  pub processed_at : Option ℕ

pub record FeatureFlag : Type 0 where
  pub key : Str
  pub value : Str

pub record BackfillCheckpoint : Type 0 where
  pub job_name : Str
  pub last_id : ℕ
  pub rows_done : ℕ

-- the committed state; `next_id` stands for the sequences of the primary keys
pub record Pg : Type 0 where
  pub users : List User
  pub orders : List Order
  pub tickets : List Ticket
  pub payments : List Payment
  pub outbox : List OutboxEvent
  pub flags : List FeatureFlag
  pub checkpoints : List BackfillCheckpoint
  pub next_id : ℕ

abbrev pub empty_pg : Pg
empty_pg = record {
  users = [];
  orders = [];
  tickets = [];
  payments = [];
  outbox = [];
  flags = [];
  checkpoints = [];
  next_id = 1;
}

abbrev pub is_pending : OrderStatus → Bool
is_pending OrderStatus.pending = true
is_pending _ = false

abbrev pub is_confirmed : OrderStatus → Bool
is_confirmed OrderStatus.confirmed = true
is_confirmed _ = false

abbrev pub is_held : TicketStatus → Bool
is_held TicketStatus.held = true
is_held _ = false

abbrev pub is_valid : TicketStatus → Bool
is_valid TicketStatus.valid = true
is_valid _ = false

-- `status IN ('held', 'valid')`
abbrev pub is_active : TicketStatus → Bool
is_active TicketStatus.held = true
is_active TicketStatus.valid = true
is_active _ = false

abbrev pub is_completed : PaymentStatus → Bool
is_completed PaymentStatus.completed = true
is_completed _ = false
