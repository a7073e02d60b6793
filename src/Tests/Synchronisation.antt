-- ===== src/Tests/Synchronisation.antt =====
-- The default retry policy.
use ai_powered_respiratory_h.Base.{pos, negsuc, ◌+◌, ◌*◌, ◌^◌, ◌≤◌, ◌≡◌, arith, string_eq}
use ai_powered_respiratory_h.Sync.Retry.{
  default_policy, compute_delay_ms, compute_delay_ms_bounds, compute_delay_ms_documented,
  documented_delay_ms,
}

compute_delay_ms_bounds_example :
    (compute_delay_ms default_policy (pos 2) 100 ≤ 30500)
    × (1000 ≤ compute_delay_ms default_policy (pos 2) 100)
    × (compute_delay_ms default_policy (pos 2) 100 ≤ compute_delay_ms default_policy (pos 3) 100)
compute_delay_ms_bounds_example =
    compute_delay_ms_bounds default_policy (pos 2) (pos 3) 100 (omega arith) (omega arith)

compute_delay_ms_documented_example :
    (12 ≤ 10
      → compute_delay_ms default_policy (pos 12) 100 ≡ documented_delay_ms default_policy 12 + 100)
    × (30000 ≤ 1000 * 2 ^ 10
        → compute_delay_ms default_policy (pos 12) 100
          ≡ documented_delay_ms default_policy 12 + 100)
    × (10 ≤ 12
        → compute_delay_ms default_policy (pos 12) 100
          ≡ documented_delay_ms default_policy 10 + 100)
    × (compute_delay_ms default_policy (negsuc 12) 100 ≡ documented_delay_ms default_policy 0 + 100)
compute_delay_ms_documented_example = compute_delay_ms_documented default_policy 12 100
