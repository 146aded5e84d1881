-- ===== src/Front.antt =====
-- studio/pd_front.py: the front door of the decoder. A request's prompt is prefilled on the other machine,
-- its capture is waited for, judged and stored, and the request goes to the decoder in any case. Times are
-- numbers since the request began, in one unit. Coverage is in parts of 10000, as it is rounded.
pub mod Manifests
pub mod Pooled
pub mod Kv
pub mod Pipelined
pub mod Bridge
use pd_bridge.Prelude.{ℕ}

-- `PD_CAPTURE_GRACE`, `PD_STAMP_TIMEOUT`, `PD_STAMP_TOK_RATE`, `PD_MIN_COVERAGE`, `PD_BLOCK`
pub record Settings : Type 0 where
  pub grace : ℕ
  pub stamp_timeout : ℕ
  pub tok_rate : ℕ
  pub min_coverage : ℕ
  pub block : ℕ

-- What the thread that posts the prompt to the engine has left in `eng`.
pub data Engine : Type 0 where
  running returned failed : Engine

-- Why a bridge is declined.
pub data Refusal : Type 0 where
  engine_failed no_directory never_sealed unreadable no_usable wrong_length pull_failed
        wrong_transport too_little :
      Refusal
