-- ===== src/RateLimit.antt =====
-- app/ratelimit.py. The limits library's counters are a state `S` with the hit of a limit and the end
-- of its window; times are in microseconds.
use contract_change_intel.Prelude.{
  ℕ, ◌+◌, ◌-◌, ◌/◌, ◌≤◌, max, Text, List, [], ◌∷◌, map, Bool, true, false, ◌==◌, ltb, select,
  exists, text_eq, length, if◌then◌else◌, arith,
}
use contract_change_intel.Diffing.Keys.{strip}

pub data Kind : Type 0 where
  extraction change_report : Kind

-- The fields of app/config.py that this module reads.
pub record Settings : Type 0 where
  pub rate_limit_extraction_per_hour : ℕ
  pub rate_limit_change_report_per_hour : ℕ
  pub demo_tenant_ids : Text
  pub demo_rate_limit_extraction_per_hour : ℕ
  pub demo_rate_limit_change_report_per_hour : ℕ

-- `text.split(",")`: the part before the first comma, and the parts behind it.
abbrev pub with_part : ℕ → Text × List Text → Text × List Text
with_part ch (part, parts) = if ch == 44 then ([], part ∷ parts) else (ch ∷ part, parts)

abbrev pub parts_of : Text → Text × List Text
parts_of [] = ([], [])
parts_of (ch ∷ text) = with_part ch (parts_of text)

abbrev pub split_commas : Text → List Text
split_commas text = let (part, parts) = parts_of text in part ∷ parts

-- `RateLimitExceededError`, with its retry_after_seconds.
pub data Verdict : Type 0 where
  allowed : Verdict
  exceeded : ℕ → Verdict

-- `limits`: `hit` takes one of `amount` an hour for a kind and a tenant, `reset_time` is the end of
-- the window.
pub record Limiter (S : Type 0) : Type 0 where
  pub hit : ℕ → Kind → Text → S → Bool × S
  pub reset_time : ℕ → Kind → Text → S → ℕ

-- `max(1, int(reset_time - time.time()) + 1)`
abbrev pub retry_after : ℕ → ℕ → ℕ
retry_after reset_time now = max 1 ((reset_time - now) / 1000000 + 1)

-- `lower` is `str.lower`.
module _ (lower : Text → Text) where
  abbrev pub demo_ids : Settings → List Text
  demo_ids settings =
      map (λ part. lower (strip part))
        (select (λ part. ltb 0 (length (strip part))) (split_commas settings.demo_tenant_ids))

  abbrev pub standard_amount : Kind → Settings → ℕ
  standard_amount extraction settings = settings.rate_limit_extraction_per_hour
  standard_amount change_report settings = settings.rate_limit_change_report_per_hour

  abbrev pub demo_amount : Kind → Settings → ℕ
  demo_amount extraction settings = settings.demo_rate_limit_extraction_per_hour
  demo_amount change_report settings = settings.demo_rate_limit_change_report_per_hour

  unfoldable pub amount_for : Kind → Text → Settings → ℕ
  amount_for kind tenant_id settings =
      if exists (text_eq (lower tenant_id)) (demo_ids settings)
      then demo_amount kind settings
      else standard_amount kind settings

  module _ {S : Type 0} (limiter : Limiter S) where
    abbrev pub after_hit : ℕ → ℕ → Kind → Text → Bool × S → Verdict × S
    after_hit amount now kind tenant_id (true, counters) = (allowed, counters)
    after_hit amount now kind tenant_id (false, counters) =
        (exceeded (retry_after (limiter.reset_time amount kind tenant_id counters) now), counters)

    unfoldable pub enforce : ℕ → Kind → Text → Settings → S → Verdict × S
    unfolding amount_for
    enforce now kind tenant_id settings counters =
        let amount = amount_for kind tenant_id settings in
        after_hit amount now kind tenant_id (limiter.hit amount kind tenant_id counters)

    -- What the caller of a verdict is told.
    abbrev pub Waits : Verdict → Type 0
    Waits allowed = Unit
    Waits (exceeded wait) = 1 ≤ wait

    after_hit-Waits :
        (amount now : ℕ) (kind : Kind) (tenant_id : Text) (answer : Bool × S)
        → Waits (after_hit amount now kind tenant_id answer).0
    after_hit-Waits amount now kind tenant_id (true, counters) = tt
    after_hit-Waits amount now kind tenant_id (false, counters) = omega arith

    -- A refused call is told to wait for at least a second.
    pub enforce-Waits :
        (now : ℕ) (kind : Kind) (tenant_id : Text) (settings : Settings) (counters : S)
        → Waits (enforce now kind tenant_id settings counters).0
    unfolding enforce
    enforce-Waits now kind tenant_id settings counters =
        after_hit-Waits _ now kind tenant_id (limiter.hit _ kind tenant_id counters)
