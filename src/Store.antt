-- ===== src/Store.antt =====
-- packages/db/prisma/schema.prisma: the rows of ONE gym. Every read and write of the services goes
-- through the client that packages/db/src/tenant-extension.ts scopes to the gym of the session, so
-- rows of other gyms are out of sight here. Ids are numbers that are only compared (and, where the
-- code sorts by id, ordered); amounts `Decimal(14, 2)` are integers of cents. Free texts, personal
-- data and timestamps are left out: rows stand in the order in which they were created.
pub mod Action
pub mod Context
pub mod Sample
use pulso_crm.Prelude.{ℕ, Bool, Option, List, ◌==◌, Option-cases}
use pulso_crm.Prelude.Int.{ℤ}
use pulso_crm.Calendar.{Date, BillingCycle}

pub data MemberStatus : Type 0 where
  active inactive : MemberStatus

pub record Member : Type 0 where
  pub id : ℕ
  pub status : MemberStatus
  pub deleted : Bool
  -- The cache of the sum of the member's ledger entries; negative when the member owes.
  pub balance : ℤ
  pub medical_clearance_until : Option Date

pub record Plan : Type 0 where
  pub id : ℕ
  pub price : ℤ
  pub billing_cycle : BillingCycle
  pub duration_days : Option ℕ
  pub classes_included : Option ℕ
  pub weekly_access_limit : Option ℕ
  -- The rows of `PlanBranch`.
  pub branches : List ℕ
  pub is_active : Bool
  pub deleted : Bool

pub record Branch : Type 0 where
  pub id : ℕ
  pub is_active : Bool
  pub deleted : Bool

pub data MembershipStatus : Type 0 where
  active expired cancelled suspended : MembershipStatus

pub record Membership : Type 0 where
  pub id : ℕ
  pub member_id : ℕ
  pub plan_id : ℕ
  pub branch_id : Option ℕ
  pub status : MembershipStatus
  pub start_date : Date
  pub end_date : Option Date
  pub auto_renew : Bool
  pub renewal_anchor_day : Option ℕ
  pub next_renewal_date : Option Date
  pub renewed_from_id : Option ℕ
  pub price_paid : ℤ
  pub classes_included : Option ℕ
  pub classes_remaining : Option ℕ

pub data LedgerEntryKind : Type 0 where
  debit credit : LedgerEntryKind

pub data LedgerReason : Type 0 where
  membership_charge product_charge adjustment_charge payment refund reversal discount : LedgerReason

-- The only text that is read back: the description of the transfer surcharge.
pub data Description : Type 0 where
  transfer_surcharge other_text : Description

pub record LedgerEntry : Type 0 where
  pub id : ℕ
  pub member_id : ℕ
  pub type : LedgerEntryKind
  pub reason : LedgerReason
  pub amount : ℤ
  pub balance_after : ℤ
  pub description : Description
  pub membership_id : Option ℕ
  pub cash_movement_id : Option ℕ
  pub branch_id : Option ℕ

pub data PaymentCode : Type 0 where
  cash qr mercado_pago mercadopago transfer other_method : PaymentCode

pub record PaymentMethod : Type 0 where
  pub id : ℕ
  pub code : PaymentCode
  pub counts_as_cash : Bool
  pub is_active : Bool

pub data MovementType : Type 0 where
  income expense : MovementType

-- The concepts that the code looks up by `code`, and those of the gym.
pub data ConceptCode : Type 0 where
  debt_payment refund membership_charge inventory_sale gym_concept : ConceptCode

pub record CashConcept : Type 0 where
  pub id : ℕ
  pub code : ConceptCode
  pub type : MovementType
  pub is_active : Bool

pub record CashRegister : Type 0 where
  pub id : ℕ
  pub branch_id : ℕ
  pub is_active : Bool

pub data SessionStatus : Type 0 where
  open_session closed : SessionStatus

pub record CashSession : Type 0 where
  pub id : ℕ
  pub branch_id : ℕ
  pub cash_register_id : ℕ
  pub status : SessionStatus
  pub opened_by : ℕ
  pub opening_amount : ℤ
  pub closed_by : Option ℕ
  pub expected_cash : Option ℤ
  pub declared_cash : Option ℤ
  pub cash_difference : Option ℤ
  pub business_date : Date

pub record ClosingDetail : Type 0 where
  pub cash_session_id : ℕ
  pub payment_method_id : ℕ
  pub expected_amount : ℤ
  pub declared_amount : ℤ
  pub difference : ℤ

pub record CashMovement : Type 0 where
  pub id : ℕ
  pub cash_session_id : ℕ
  pub type : MovementType
  pub amount : ℤ
  pub payment_method_id : ℕ
  pub cash_concept_id : ℕ
  pub member_id : Option ℕ
  pub membership_id : Option ℕ
  pub reversal_of_id : Option ℕ
  pub is_reversed : Bool
  pub created_by : ℕ

-- `CashOperationRequest`, of which only the pending ones are counted.
pub record OperationRequest : Type 0 where
  pub cash_session_id : ℕ
  pub pending : Bool

pub data AuditAction : Type 0 where
  cash_session_opened cash_session_closed cash_movement_created : AuditAction
  cash_movement_reversed membership_created membership_renewed : AuditAction
  membership_cancelled membership_renewal_configured membership_renewal_stopped : AuditAction
  stock_adjusted product_sold product_sale_reversed product_created : AuditAction
  product_updated : AuditAction

pub record AuditEvent : Type 0 where
  pub action : AuditAction
  pub resource_id : ℕ
  pub branch_id : Option ℕ

pub record Attendance : Type 0 where
  pub id : ℕ
  pub member_id : ℕ
  pub membership_id : Option ℕ
  pub branch_id : ℕ
  pub occurred_on : Date

pub data AccessDecision : Type 0 where
  allowed denied : AccessDecision

pub data AccessReason : Type 0 where
  member_not_found member_inactive no_membership membership_cancelled membership_expired :
      AccessReason
  debt_blocked branch_not_allowed no_classes_remaining weekly_limit_reached : AccessReason
  medical_clearance_expired duplicate_window access_ok : AccessReason

pub record AccessAttempt : Type 0 where
  pub id : ℕ
  pub branch_id : ℕ
  pub member_id : Option ℕ
  pub decision : AccessDecision
  pub reason : AccessReason
  pub attendance_id : Option ℕ

pub record Product : Type 0 where
  pub id : ℕ
  -- A text that is only compared, whatever its case.
  pub sku : ℕ
  pub sale_price : ℤ
  pub cost_price : ℤ
  pub is_active : Bool

pub record Stock : Type 0 where
  pub branch_id : ℕ
  pub product_id : ℕ
  pub quantity : ℕ

pub data StockMovementType : Type 0 where
  restock adjustment sale reversal : StockMovementType

pub record StockMovement : Type 0 where
  pub branch_id : ℕ
  pub product_id : ℕ
  pub sale_id : Option ℕ
  pub type : StockMovementType
  pub quantity : ℤ
  pub balance_after : ℕ

pub record SaleItem : Type 0 where
  pub product_id : ℕ
  pub quantity : ℕ
  pub unit_price : ℤ
  pub unit_cost : ℤ
  pub line_total : ℤ

-- `InventorySale` with its rows of `InventorySaleItem`.
pub record Sale : Type 0 where
  pub id : ℕ
  pub branch_id : ℕ
  pub cash_movement_id : ℕ
  pub total : ℤ
  pub reversal_movement_id : Option ℕ
  pub reversed : Bool
  pub items : List SaleItem

pub record Db : Type 0 where
  -- The next id that the database gives.
  pub next_id : ℕ
  pub members : List Member
  pub plans : List Plan
  pub branches : List Branch
  pub memberships : List Membership
  pub entries : List LedgerEntry
  pub methods : List PaymentMethod
  pub concepts : List CashConcept
  pub registers : List CashRegister
  pub sessions : List CashSession
  pub details : List ClosingDetail
  pub movements : List CashMovement
  pub requests : List OperationRequest
  pub attendances : List Attendance
  pub attempts : List AccessAttempt
  pub products : List Product
  pub stocks : List Stock
  pub stock_movements : List StockMovement
  pub sales : List Sale
  pub audit : List AuditEvent
