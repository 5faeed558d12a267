-- ===== src/PlanLimit/Quotas.antt =====
-- api/internal/domain/planlimit/quotas.go, and the answer of billing that it reads
-- (api/internal/billingclient/client.go). An int64 is `nonneg n`, or `minus n` for -n - 1.
use ctech_account.Common.{
  ℕ, ◌-◌, ◌^◌, String, Bool, true, false, not, Option, none, some, List, [], ◌∷◌, ltb, ◌==◌, str_eq,
  if◌then◌else◌,
}
use ctech_account.Action.{Result, ok, err}
use ctech_account.Organization.Model.{Limit, unlimited, at_most, Quotas, OrgError, plan_unavailable}

pub data Int64 : Type 0 where
  nonneg minus : ℕ → Int64

abbrev pub Metadata : Type 0
Metadata = List (String × String)

pub record Item : Type 0 where
  pub price_id : String
  pub metadata : Metadata

pub record Subscription : Type 0 where
  pub id : String
  pub status : String
  pub entitled : Bool
  pub plan : String
  pub items : List Item

pub record DefaultPlan : Type 0 where
  pub price_id : String
  pub plan : String
  pub metadata : Metadata

pub record Entitlements : Type 0 where
  pub entitled : Bool
  pub subscriptions : List Subscription
  pub default_plan : Option DefaultPlan

abbrev pub meta_quota_spaces : String
meta_quota_spaces = "quota_spaces"

abbrev pub meta_quota_people : String
meta_quota_people = "quota_people_per_space"

-- `meta[key]`
abbrev pub lookup : String → Metadata → Option String
lookup key [] = none
lookup key ((k, v) ∷ kvs) = let rest = lookup key kvs in if str_eq k key then some v else rest

abbrev pub first_metadata : List Item → Metadata
first_metadata [] = []
first_metadata (i ∷ is) = i.metadata

abbrev has_key : Option String → Bool
has_key none = false
has_key (some v) = true

-- The loop of metadataOf.
abbrev pub metadata_with_quota : List Item → Option Metadata
metadata_with_quota [] = none
metadata_with_quota (i ∷ is) =
    let rest = metadata_with_quota is in
    if has_key (lookup meta_quota_spaces i.metadata) then some i.metadata else rest

unfoldable pub metadata_of : List Item → Metadata
metadata_of is = elim (metadata_with_quota is) [ some m ↦ m | none ↦ first_metadata is ]

-- The value that stands for an int64: below -1, and where there is no integer, 0.
abbrev pub limit_of : Option Int64 → Limit
limit_of none = at_most 0
limit_of (some (nonneg n)) = at_most n
limit_of (some (minus n)) = if n == 0 then unlimited else at_most 0

-- Unlimited is math.MaxInt64.
unfoldable pub rank : Limit → ℕ
rank unlimited = 2 ^ 63 - 1
rank (at_most n) = n

unfoldable pub more_generous : Quotas → Quotas → Bool
more_generous a b =
    if not (rank a.spaces == rank b.spaces)
    then ltb (rank b.spaces) (rank a.spaces)
    else ltb (rank b.people_per_space) (rank a.people_per_space)

-- `parse` is strconv.ParseInt of strings.TrimSpace, `none` where that is an error.
module _ (parse : String → Option Int64) where
  abbrev pub parsed : Option String → Option Int64
  parsed none = none
  parsed (some raw) = parse raw

  unfoldable pub quota : Metadata → String → Limit
  quota metadata key = limit_of (parsed (lookup key metadata))

  unfoldable pub quotas_in : String → Metadata → Quotas
  quotas_in plan metadata = record {
    plan = plan;
    spaces = quota metadata meta_quota_spaces;
    people_per_space = quota metadata meta_quota_people;
  }

  abbrev pub quotas_of : Subscription → Quotas
  quotas_of s = quotas_in s.plan (metadata_of s.items)

  -- `chosen == nil || moreGenerous(q, *chosen)`
  unfoldable pub prefer : Quotas → Option Quotas → Option Quotas
  prefer q none = some q
  prefer q (some c) = if more_generous q c then some q else some c

  abbrev pub next_choice : Subscription → Option Quotas → Option Quotas
  next_choice s chosen = if not s.entitled then chosen else prefer (quotas_of s) chosen

  -- The loop of QuotasFrom.
  unfoldable pub choose : Option Quotas → List Subscription → Option Quotas
  choose chosen [] = chosen
  choose chosen (s ∷ ss) = choose (next_choice s chosen) ss

  abbrev pub default_quotas : Option DefaultPlan → Result OrgError Quotas
  default_quotas none = err plan_unavailable
  default_quotas (some d) = ok (quotas_in d.plan d.metadata)

  abbrev pub chosen_or_default : Option DefaultPlan → Option Quotas → Result OrgError Quotas
  chosen_or_default d (some q) = ok q
  chosen_or_default d none = default_quotas d

  unfoldable pub quotas_from : Entitlements → Result OrgError Quotas
  quotas_from e = chosen_or_default e.default_plan (choose none e.subscriptions)
