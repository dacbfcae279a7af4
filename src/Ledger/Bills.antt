-- ===== src/Ledger/Bills.antt =====
-- Invoices and payments: packages/database/prisma/schema.prisma.
use Prim.Native.Nat.{ℕ}
use mathlib.Core.Bool.{Bool}
use mathlib.Core.Option.{Option}
use mathlib.Core.List.{List}
use Prim.Native.String.{String}

pub data InvoiceStatus : Type 0 where
  draft sent paid overdue cancelled : InvoiceStatus

pub data InvoiceType : Type 0 where
  itemized uploaded external : InvoiceType

-- A number is its text, as character codes. Amounts are cents.
pub record Invoice : Type 0 where
  pub id : ℕ
  pub invoice_number : List ℕ
  pub status : InvoiceStatus
  pub type : InvoiceType
  pub due_date : Option ℕ
  pub notes : Option String
  pub amount : Option ℕ
  pub uploaded_file_id : Option ℕ
  pub project_id : Option ℕ
  pub external_reference : Option String
  pub billing_client_id : Option ℕ
  pub organization_id : ℕ
  pub stripe_checkout_session_id : Option ℕ
  pub stripe_payment_intent_id : Option ℕ
  pub paid_at : Option ℕ
  pub paid_amount : Option ℕ

pub record InvoiceLineItem : Type 0 where
  pub id : ℕ
  pub invoice_id : ℕ
  pub description : String
  pub quantity : ℕ
  pub unit_price : ℕ

pub record File : Type 0 where
  pub id : ℕ
  pub organization_id : ℕ
  pub project_id : Option ℕ
  pub billing_client_id : Option ℕ

-- A row of `projectClient`: the user is a client on the project.
pub record ProjectClient : Type 0 where
  pub project_id : ℕ
  pub user_id : ℕ

-- The payment methods by Stripe's names.
pub data PaymentMethod : Type 0 where
  card link us_bank_account sepa_debit ideal bacs_debit klarna afterpay_clearpay affirm cashapp :
      PaymentMethod

-- The payment columns of `SystemSettings`; keys are numbers, encrypted where the schema says so.
pub record SystemSettings : Type 0 where
  pub organization_id : ℕ
  pub stripe_secret_key : Option ℕ
  pub stripe_webhook_secret : Option ℕ
  pub stripe_connect_account_id : Option ℕ
  pub stripe_connect_enabled : Bool
  pub stripe_connect_livemode : Bool
  pub stripe_payment_methods : List PaymentMethod

pub data Notice : Type 0 where
  invoice_sent invoice_paid stripe_disconnected : ℕ → Notice
  task_created client_request_created decision_closed task_status_changed task_assigned : ℕ → Notice
