-- ===== src/Deletion/Silent.antt =====
-- Proofs on which participants reconcile of api/internal/domain/deletion/service.go asks again.
use ctech_account.Common.{◌≡◌, ℕ, ◌⊎◌, ◌*◌, ◌+◌, ◌≤◌, ◌<◌, List, [], ◌∷◌, All, arith}
use ctech_account.Deletion.Model.{second, ServiceStatus, acked, parse_time}
use ctech_account.Deletion.Saga.{ack_backoff}

-- At `now` it is a quarter of an hour or more since the service was asked, or it was never asked.
abbrev pub HasRested : ℕ → ServiceStatus → Type 0
HasRested now st = (st.attempts ≡ 0) ⊎ (parse_time st.last_dispatch_at + 900 * second ≤ now)

ack_backoff-least : (n : ℕ) → 900 * second ≤ ack_backoff n
ack_backoff-least n = ground arith

abbrev pub OneOf : ServiceStatus → List ServiceStatus → Type 0
OneOf st [] = ⊥
OneOf st (x ∷ xs) = (st ≡ x) ⊎ OneOf st xs

-- The service has acknowledged, was asked less than a day ago, or is among the silent ones.
abbrev pub Settled : ℕ → List ServiceStatus → ServiceStatus → Type 0
Settled now silent st =
    (st.status ≡ acked) ⊎ (now < parse_time st.last_dispatch_at + 86400 * second) ⊎ OneOf st silent

-- What a scan that does not end in a refusal makes of the silent ones.
record Scanned (now : ℕ) (sts before after : List ServiceStatus) : Type 0 where
  rested : All (HasRested now) after
  kept : (st : ServiceStatus) → OneOf st before → OneOf st after
  settled : All (Settled now after) sts
