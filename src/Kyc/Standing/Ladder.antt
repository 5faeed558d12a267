-- ===== src/Kyc/Standing/Ladder.antt =====
-- The tiers of a verification, read from the comment above Service in api/internal/domain/kyc/service.go.
use ctech_account.Common.{◌≡◌, Bool, true, false, not, ◌&&◌, ◌||◌, ℕ, ◌≤◌, arith}
use ctech_account.Kyc.Model.{
  Level, no_level, basic, enhanced, Status, no_status, pending, verified, rejected, is_basic,
  is_enhanced, is_verified, claim_level,
}

pub record Stage : Type 0 where
  pub level : Level
  pub status : Status

abbrev pub first_stage : Stage
first_stage = record { level = no_level; status = no_status }

abbrev pub is_unverified : Stage → Bool
is_unverified t = not (is_basic t.level && is_verified t.status) && not (is_enhanced t.level)

abbrev pub same_level : Level → Level → Bool
same_level no_level no_level = true
same_level basic basic = true
same_level enhanced enhanced = true
same_level _ _ = false

abbrev pub same_status : Status → Status → Bool
same_status no_status no_status = true
same_status pending pending = true
same_status verified verified = true
same_status rejected rejected = true
same_status _ _ = false

abbrev pub advances : Level → Status → Level → Status → Bool
advances basic verified enhanced pending = true
advances enhanced pending enhanced verified = true
advances enhanced pending enhanced rejected = true
advances enhanced rejected enhanced pending = true
advances _ _ _ _ = false

-- A stage and another that a call may put in its place: the same, the first verified one, or the next.
abbrev pub follows : Stage → Stage → Bool
follows a b =
    same_level a.level b.level && same_status a.status b.status
    || (is_unverified a && (is_basic b.level && is_verified b.status)
        || advances a.level a.status b.level b.status)

pub data Climbs (s : Stage) : Stage → Type 0 where
  still : Climbs s s
  then_to : {a b : Stage} → Climbs s a → follows a b ≡ true → Climbs s b

abbrev rank : Level → ℕ
rank no_level = 0
rank basic = 1
rank enhanced = 2

-- The claim of a stage in tokens, as a number.
abbrev pub standing : Stage → ℕ
standing t = rank (claim_level t.level t.status)

pub follows_refl : (a : Stage) → follows a a ≡ true
follows_refl a = ground arith

-- A claim in tokens is never lowered.
follows-standing : (a b : Stage) → follows a b ≡ true → standing a ≤ standing b
unfolding claim_level
follows-standing a b h = ground arith

pub Climbs-standing : (a b : Stage) → Climbs a b → standing a ≤ standing b
Climbs-standing a _ still = omega arith
Climbs-standing a _ (then_to {a = x} {b = y} p e) =
    omega (arith, Climbs-standing a x p, follows-standing x y e)
