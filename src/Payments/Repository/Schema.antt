-- ===== src/Payments/Repository/Schema.antt =====
-- approach-1/migrations/0001_init.sql: the four tables, each the list of its rows, newest first.
use payment_processing.Common.{ℕ, String, List}
use payment_processing.Payments.Models.{Uuid, ℤ}

pub record OrderRow : Type 0 where
  pub id : Uuid
  pub user_id : String
  pub amount : ℤ
  pub currency : String
  pub status : String
  pub created_at : ℕ
  pub updated_at : ℕ

pub record PaymentRow : Type 0 where
  pub id : Uuid
  pub order_id : Uuid
  pub gateway : String
  pub method : String
  pub checkout_url : String
  pub status : String
  pub created_at : ℕ
  pub updated_at : ℕ

pub record TransactionRow : Type 0 where
  pub id : Uuid
  pub payment_id : Uuid
  pub gateway : String
  pub gateway_txn_id : String
  pub webhook_event_id : String
  pub status : String
  pub raw_payload : String
  pub created_at : ℕ

pub record SettlementRow : Type 0 where
  pub id : Uuid
  pub payment_id : Uuid
  pub gateway : String
  pub settlement_ref : String
  pub amount : ℤ
  pub status : String
  pub created_at : ℕ

pub record Tables : Type 0 where
  pub orders : List OrderRow
  pub payments : List PaymentRow
  pub transactions : List TransactionRow
  pub settlements : List SettlementRow
