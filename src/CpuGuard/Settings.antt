-- ===== src/CpuGuard/Settings.antt =====
-- internal/resourceguard/cpu_monitor.go: the settings that `NewCPUMonitor` stores.
use qmdsr.Prelude.{◌≡◌, refl, true, false, arith}
use qmdsr.Prelude.Int.{◌≤ℤ◌, is_pos}
use qmdsr.CpuGuard.{CpuMonitorConfig, new_cpu_monitor}

pub record IsUsable (c : CpuMonitorConfig) : Type 0 where
  pub interval : is_pos c.sample_interval ≡ true
  pub overload : is_pos c.overload_percent ≡ true
  pub overload_window : is_pos c.overload_sustain ≡ true
  pub recover : is_pos c.recover_percent ≡ true
  pub recover_window : is_pos c.recover_sustain ≡ true
  pub critical_window : is_pos c.critical_sustain ≡ true
  pub ordered : c.overload_percent ≤ℤ c.critical_percent

-- Whatever the configuration, the monitor starts with both flags off, and its settings are usable:
-- each window, interval and threshold is positive, and the critical threshold is not below the
-- overload threshold.
pub new_cpu_monitor-IsUsable :
    (cfg : CpuMonitorConfig)
    → IsUsable (new_cpu_monitor cfg).cfg
      × ((new_cpu_monitor cfg).overloaded ≡ false)
      × ((new_cpu_monitor cfg).critical ≡ false)
unfolding new_cpu_monitor
new_cpu_monitor-IsUsable cfg = (ground arith, refl, refl)

-- Settings that are usable are stored as they are.
pub new_cpu_monitor-cfg :
    (cfg : CpuMonitorConfig)
    → IsUsable cfg
    → is_pos cfg.critical_percent ≡ true
    → (new_cpu_monitor cfg).cfg ≡ cfg
unfolding new_cpu_monitor
new_cpu_monitor-cfg cfg h p = ground arith
