-- ===== src/Handlers/Health.antt =====
-- delivery/http/handler/health_handler.go: the probes, over the answers and latencies of the pings.
use quant_indonesia_scraping.Prelude.{
  ℕ, ◌≡◌, ◌↔◌, ◌⊎◌, refl, Bool, true, false, not, ◌&&◌, ◌||◌, Option, none, some, Text, codes,
  text_eq, if◌then◌else◌, inl, inr, Bool-cases, arith,
}

pub record CheckResult : Type 0 where
  pub status : Text
  pub latency_ms : ℕ

-- A ping fails or not, after a number of milliseconds.
pub record Ping : Type 0 where
  pub fails : Bool
  pub latency_ms : ℕ

pub ping_postgres : Ping → CheckResult
ping_postgres p = record {
  status = if p.fails then codes "error" else codes "ok";
  latency_ms = p.latency_ms;
}

-- Without a client Valkey is disabled.
pub ping_valkey : Option Ping → CheckResult
ping_valkey none = record { status = codes "disabled"; latency_ms = 0 }
ping_valkey (some p) = record {
  status = if p.fails then codes "error" else codes "ok";
  latency_ms = p.latency_ms;
}

pub record Readiness : Type 0 where
  pub http_status : ℕ
  pub status : Text
  pub postgres : CheckResult
  pub valkey : CheckResult

pub is_healthy : CheckResult → CheckResult → Bool
is_healthy pg valkey =
    text_eq pg.status (codes "ok")
    && (text_eq valkey.status (codes "ok") || text_eq valkey.status (codes "disabled"))

pub readiness : Ping → Option Ping → Readiness
unfolding ping_postgres ping_valkey is_healthy
readiness pg valkey =
    let healthy = is_healthy (ping_postgres pg) (ping_valkey valkey) in
    record {
      http_status = if healthy then 200 else 503;
      status = if healthy then codes "ok" else codes "degraded";
      postgres = ping_postgres pg;
      valkey = ping_valkey valkey;
    }

-- Valkey answers, or is not configured.
abbrev pub is_valkey_up : Option Ping → Bool
is_valkey_up none = true
is_valkey_up (some p) = not p.fails

-- The server is ready exactly if PostgreSQL answers and Valkey answers or is not configured; else it
-- is degraded, with the status 503.
pub readiness_lem :
    (pg : Ping) (valkey : Option Ping)
    → let r = readiness pg valkey in
      ((r.http_status ≡ 200) ↔ ((pg.fails ≡ false) × (is_valkey_up valkey ≡ true)))
      × ((r.http_status ≡ 200) ⊎ ((r.http_status ≡ 503) × (r.status ≡ codes "degraded")))
unfolding readiness ping_postgres ping_valkey is_healthy
readiness_lem pg none = elim (Bool-cases pg.fails) [
  | inl e ↦ rw e (((λ h. absurd (ground arith)), (λ (ok, v). cc)), inr (refl, refl))
  | inr e ↦ rw e (((λ h. (refl, refl)), (λ h. refl)), inl refl)
]
readiness_lem pg (some p) = elim (Bool-cases pg.fails) [
  | inl e ↦ rw e (((λ h. absurd (ground arith)), (λ (ok, v). cc)), inr (refl, refl))
  | inr e ↦ elim (Bool-cases p.fails) [
    | inl f ↦ rw e (rw f (((λ h. absurd (ground arith)), (λ (ok, v). cc)), inr (refl, refl)))
    | inr f ↦ rw e (rw f (((λ h. (refl, refl)), (λ h. refl)), inl refl))
  ]
]
