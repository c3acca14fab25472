-- ===== src/Worker/Expirations.antt =====
-- apps/worker/src/jobs/membership-expiration.ts: the daily expiry of memberships, on the rows of one
-- gym.
pub mod ByRow
mod Tests
use pulso_crm.Prelude.{
  ℕ, ◌+◌, Bool, true, false, not, Option, none, some, List, [], ◌∷◌, ◌++◌, ◌==◌, ◌&&◌, ◌||◌,
  if◌then◌else◌, find_many, update_where, count_where, includes, length,
}
use pulso_crm.Calendar.{Date}
use pulso_crm.Store.{Db, Branch, Membership, MembershipStatus}
use pulso_crm.Memberships.{is_active_period, ends_before}

-- `ExpirationResult`.
pub record ExpirationResult : Type 0 where
  pub branches_processed : ℕ
  pub memberships_expired : ℕ

-- A time zone with its branches.
pub record Group : Type 0 where
  pub timezone : ℕ
  pub branches : List ℕ

-- `byTimezone.set(tz, [...(byTimezone.get(tz) ?? []), branch])`.
unfoldable pub add_to_group : ℕ → ℕ → List Group → List Group
add_to_group timezone id [] = (record { timezone = timezone; branches = id ∷ [] }) ∷ []
add_to_group timezone id (g ∷ gs) =
    if g.timezone == timezone
    then (record g { branches = g.branches ++ id ∷ [] }) ∷ gs
    else g ∷ add_to_group timezone id gs

-- The loop that groups the branches; `zone` is the column `timezone`.
unfoldable pub by_timezone : (ℕ → ℕ) → List Branch → List Group → List Group
by_timezone zone [] groups = groups
by_timezone zone (b ∷ bs) groups = by_timezone zone bs (add_to_group (zone b.id) b.id groups)

abbrev pub is_of : List ℕ → Option ℕ → Bool
is_of ids none = false
is_of ids (some b) = includes b ids

-- The `where` of a group's update: an active period whose last day has passed.
abbrev pub is_over : Date → List ℕ → Membership → Bool
is_over business_date ids m =
    is_active_period m.status && (is_of ids m.branch_id && ends_before m.end_date business_date)

abbrev is_zero : Option ℕ → Bool
is_zero none = false
is_zero (some n) = n == 0

abbrev has_no_end : Option Date → Bool
has_no_end none = true
has_no_end (some d) = false

-- The `where` of the last update: a pack of classes that is used up.
abbrev pub is_exhausted : Membership → Bool
is_exhausted m = is_active_period m.status && (has_no_end m.end_date && is_zero m.classes_remaining)

abbrev pub expire : Membership → Membership
expire m = record m { status = MembershipStatus.expired }

-- The loop over the groups; `business_day` is `toBusinessDate(now, timezone)`.
unfoldable pub expire_groups : (ℕ → Date) → List Group → ℕ → List Membership → ℕ × List Membership
expire_groups business_day [] expired ms = (expired, ms)
expire_groups business_day (g ∷ gs) expired ms =
    let over = is_over (business_day g.timezone) g.branches in
    expire_groups business_day gs (expired + count_where over ms) (update_where over expire ms)

abbrev pub is_processed : Branch → Bool
is_processed b = not b.deleted && b.is_active

-- `expireMemberships`.
unfoldable pub expire_memberships : (ℕ → ℕ) → (ℕ → Date) → Db → ExpirationResult × Db
expire_memberships zone business_day db =
    let branches = find_many is_processed db.branches in
    let (expired, ms) =
      expire_groups business_day (by_timezone zone branches []) 0 db.memberships in
    (
      record {
        branches_processed = length branches;
        memberships_expired = expired + count_where is_exhausted ms;
      },
      record db { memberships = update_where is_exhausted expire ms },
    )
