-- ===== src/Incidents/Policy/Scores.antt =====
-- The order of severities in src/platform_ops/incidents/severity.py.
use data_platform_ops.Prelude.{ℕ, ◌≤◌, arith}
use data_platform_ops.Incidents.Policy.{
  Severity, sev1, sev2, sev3, IncidentPolicy, severity_for, raised,
}

-- SEVERITIES.index(severity): 0 is the worst.
abbrev pub rank : Severity → ℕ
rank sev1 = 0
rank sev2 = 1
rank sev3 = 2

-- An incident that scores more is never less severe.
pub severity_for-monotone :
    (low high : ℕ) (policy : IncidentPolicy)
    → low ≤ high
    → rank (severity_for high policy) ≤ rank (severity_for low policy)
unfolding severity_for
severity_for-monotone low high policy h = ground arith

pub rank-raised : (s : Severity) → rank (raised s) ≤ rank s
unfolding raised
rank-raised sev1 = omega arith
rank-raised sev2 = omega arith
rank-raised sev3 = omega arith
