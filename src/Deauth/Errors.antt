-- ===== src/Deauth/Errors.antt =====
-- src/upstream_supplicant/deauth.rs: the errors of the queue and their status codes.
use hisi_rf_ws.Common.{ℤ, negsuc}

pub data Error : Type 0 where
  full exhausted rejected evidence_lost invalid_completion wake_failed worker_unavailable busy :
      Error
  native : ℤ → Error

unfoldable pub status : Error → ℤ
status Error.full = negsuc 0x6300
status Error.exhausted = negsuc 0x6301
status Error.rejected = negsuc 0x6302
status Error.evidence_lost = negsuc 0x6303
status Error.invalid_completion = negsuc 0x6304
status Error.wake_failed = negsuc 0x6305
status Error.worker_unavailable = negsuc 0x6307
status Error.busy = negsuc 0x6308
status (Error.native code) = code
