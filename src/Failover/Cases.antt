-- ===== src/Failover/Cases.antt =====
-- The branches of the failover tick: crates/api/src/failover.rs, `monitor`.
use shed.Prelude.{ltb, ltb→lt, ◌≤◌, ◌<◌, ◌≡◌, true, false, not, ◌&&◌, ◌||◌, none, arith, if_cases}
use shed.Failover.{Env, Out, Monitor, tick_arm, fail_over, restore, threshold, dark_for, recovered}

abbrev pub resubscribed : Env → Monitor → Monitor
resubscribed env m = record m { subscribed = m.subscribed || env.has_relay m.intended }

-- One case for each branch, under its tests.
pub tick_cases {ℓ} :
    (P : Monitor × Out → Type ℓ) (env : Env) (m : Monitor) (out : Out)
    → (m.showing_fallback ≡ false
        → threshold m < dark_for env m
        → P (fail_over env (resubscribed env m) out))
    → (m.showing_fallback ≡ true
        → 750 < dark_for env m
        → P (
          record m {
            subscribed = m.subscribed || env.has_relay m.intended;
            recovering_since = none;
          },
          out,
        ))
    → (m.showing_fallback ≡ true
        → dark_for env m ≤ 750
        → recovered env m ≡ true
        → P (restore (resubscribed env m) out))
    → (m.showing_fallback ≡ true
        → dark_for env m ≤ 750
        → recovered env m ≡ false
        → P (resubscribed env m, out))
    → (m.showing_fallback ≡ false → dark_for env m ≤ threshold m → P (resubscribed env m, out))
    → P (tick_arm env m out)
unfolding tick_arm
tick_cases P env m out engage dark back wait watch =
    let late = ltb (threshold m) (dark_for env m) in
    if_cases P (not m.showing_fallback && late) _ _ (λ h. engage (ground arith) (ground arith))
      (λ h.
        if_cases P m.showing_fallback _ _
          (λ s.
            if_cases P (ltb 750 (dark_for env m)) _ _ (λ d. dark s (ltb→lt 750 (dark_for env m) d))
              (λ d.
                if_cases P (recovered env m) _ _ (λ r. back s (ground arith) r)
                  (λ r. wait s (ground arith) r)))
          (λ s. watch s (ground arith)))
