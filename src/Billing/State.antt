-- ===== src/Billing/State.antt =====
-- The tables of the portal's billing, and the rows that count as usage.
use pexlo_portal.Prelude.{
  ℕ, ◌+◌, ◌/◌, Bool, true, false, not, Option, List, [], ◌∷◌, ◌==◌, ◌&&◌, if◌then◌else◌, find_first,
  count, is_none,
}
use pexlo_portal.Ledger.{MemberRole, owner, member}

-- The plans that the code names, and others.
pub data Slug : Type 0 where
  free lifetime : Slug
  named : ℕ → Slug

-- A limit of -1 is `none`.
pub record SubscriptionPlan : Type 0 where
  pub id : ℕ
  pub slug : Slug
  pub stripe_price_id : Option ℕ
  pub max_projects : Option ℕ
  pub max_storage_mb : Option ℕ
  pub max_members : Option ℕ
  pub max_clients : Option ℕ
  pub max_seats : Option ℕ
  pub is_recurring : Bool

-- The portal's statuses, and Stripe's others.
pub data SubscriptionStatus : Type 0 where
  active past_due canceled incomplete : SubscriptionStatus
  stripe_status : ℕ → SubscriptionStatus

pub record Subscription : Type 0 where
  pub id : ℕ
  pub organization_id : ℕ
  pub plan_id : ℕ
  pub stripe_customer_id : Option ℕ
  pub stripe_subscription_id : Option ℕ
  pub stripe_payment_intent_id : Option ℕ
  pub status : SubscriptionStatus
  pub current_period_start : Option ℕ
  pub current_period_end : Option ℕ
  pub cancel_at_period_end : Bool

pub record Project : Type 0 where
  pub organization_id : ℕ
  pub archived_at : Option ℕ

pub record File : Type 0 where
  pub organization_id : ℕ
  pub size_bytes : ℕ

pub record Member : Type 0 where
  pub organization_id : ℕ
  pub role : MemberRole

pub record Store : Type 0 where
  pub plans : List SubscriptionPlan
  pub subscriptions : List Subscription
  pub projects : List Project
  pub files : List File
  pub members : List Member

abbrev pub same_slug : Slug → Slug → Bool
same_slug free free = true
same_slug lifetime lifetime = true
same_slug (named a) (named b) = a == b
same_slug _ _ = false

abbrev pub is_active : SubscriptionStatus → Bool
is_active active = true
is_active _ = false

abbrev pub subscription_id : Subscription → ℕ
subscription_id x = x.id

abbrev pub plan_named : Slug → Store → Option SubscriptionPlan
plan_named slug s = find_first (λ (p : SubscriptionPlan). same_slug p.slug slug) s.plans

abbrev pub plan_of : Subscription → Store → Option SubscriptionPlan
plan_of x s = find_first (λ (p : SubscriptionPlan). p.id == x.plan_id) s.plans

abbrev pub of_org : ℕ → Subscription → Bool
of_org org x = x.organization_id == org

pub record Usage : Type 0 where
  pub projects : ℕ
  pub storage_mb : ℕ
  pub members : ℕ
  pub clients : ℕ

abbrev pub is_owner : MemberRole → Bool
is_owner owner = true
is_owner _ = false

abbrev pub is_member : MemberRole → Bool
is_member member = true
is_member _ = false

abbrev pub stored_bytes : ℕ → List File → ℕ
stored_bytes org [] = 0
stored_bytes org (f ∷ fs) =
    let rest = stored_bytes org fs in if f.organization_id == org then f.size_bytes + rest else rest

-- `getUsage`; a megabyte is 1024 * 1024 bytes, rounded to the nearest.
unfoldable pub get_usage : ℕ → Store → Usage
get_usage org s = record {
  projects = count (λ (p : Project). p.organization_id == org && is_none p.archived_at) s.projects;
  storage_mb = (stored_bytes org s.files + 524288) / 1048576;
  members = count (λ (m : Member). m.organization_id == org && not (is_owner m.role)) s.members;
  clients = count (λ (m : Member). m.organization_id == org && is_member m.role) s.members;
}
