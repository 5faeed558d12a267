-- ===== src/PlanLimit/Tests.antt =====
-- An answer of billing with two entitled plans and a lapsed one, and the theorems at it.
use ctech_account.Common.{
  ◌≡◌, refl, ◌⊎◌, String, Bool, true, false, Option, none, some, [], ◌∷◌, All, str_eq,
  if◌then◌else◌,
}
use ctech_account.Action.{ok}
use ctech_account.Organization.Model.{at_most, Quotas}
use ctech_account.PlanLimit.Quotas.{
  Int64, nonneg, minus, Subscription, Entitlements, rank, more_generous, metadata_of, quota,
  quotas_in, prefer, choose, default_quotas, quotas_from,
}
use ctech_account.PlanLimit.Best.{AsGenerous, OneOf, offered, quotas_from-best}

abbrev parse : String → Option Int64
parse s =
    if str_eq s "3"
    then some (nonneg 3)
    else if str_eq s "5"
    then some (nonneg 5)
    else if str_eq s "-1"
    then some (minus 0)
    else none

abbrev plan : String → Bool → String → String → Subscription
plan name entitled spaces people = record {
  id = name;
  status = "";
  entitled = entitled;
  plan = name;
  items =
      record {
        price_id = "p";
        metadata = ("quota_spaces", spaces) ∷ ("quota_people_per_space", people) ∷ [];
      }
      ∷ [];
}

abbrev billed : Entitlements
billed = record {
  entitled = true;
  subscriptions =
      plan "basic" true "3" "5" ∷ plan "pro" true "5" "3" ∷ plan "ondemand" false "-1" "-1" ∷ [];
  default_plan = none;
}

pro_chosen :
    quotas_from parse billed
    ≡ ok (record { plan = "pro"; spaces = at_most 5; people_per_space = at_most 3 })
unfolding quotas_from choose prefer more_generous rank quotas_in quota metadata_of
pro_chosen = refl

quotas_from-best_example :
    (offered parse billed.subscriptions ≡ [])
      × (quotas_from parse billed ≡ default_quotas parse billed.default_plan)
    ⊎ ((q : Quotas) × (quotas_from parse billed ≡ ok q)
        × OneOf q (offered parse billed.subscriptions)
        × All (AsGenerous q) (offered parse billed.subscriptions))
quotas_from-best_example = quotas_from-best parse billed
