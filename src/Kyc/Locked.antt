-- ===== src/Kyc/Locked.antt =====
-- Proofs on what is shown to a user and what tokens claim,
-- api/internal/domain/kyc/service.go and model.go.
use ctech_account.Common.{Bool, true, false}
use ctech_account.Kyc.Model.{Status, no_status}

abbrev pub is_unset : Status → Bool
is_unset no_status = true
is_unset _ = false
