-- ===== src/CpuGuard/Examples.antt =====
-- A monitor with a window of two samples, and the theorems about it at concrete readings.
use qmdsr.Prelude.{◌*◌, ◌≡◌, refl, true, none, some, List, [], ◌∷◌}
use qmdsr.Prelude.Int.{pos}
use qmdsr.CpuGuard.{
  CpuMonitorConfig, Usage, CpuMonitor, new_cpu_monitor, required_samples, LoopState, loop_start,
  at_least, at_most, need_above, need_below, need_critical, second, tick, observe, overload_switch,
  critical_switch, set_usage, set_overloaded, set_critical,
}
use qmdsr.CpuGuard.Settings.{new_cpu_monitor-IsUsable, new_cpu_monitor-cfg}
use qmdsr.CpuGuard.Windows.{
  flag, run_of, is_hot, is_cold, is_critical, is_calm, measured, Reach, start, skip, sample,
  Reach-flags,
}

program : Unit {0}
unfolding new_cpu_monitor required_samples loop_start at_least at_most tick observe overload_switch
    critical_switch set_usage set_overloaded set_critical measured flag run_of
program = tt

abbrev unset : CpuMonitorConfig
unset = record {
  enabled = true;
  sample_interval = pos 0;
  overload_percent = pos 0;
  overload_sustain = pos (2 * second);
  recover_percent = pos 0;
  recover_sustain = pos 0;
  critical_percent = pos 80;
  critical_sustain = pos 0;
}

abbrev monitor : CpuMonitor
monitor = new_cpu_monitor unset

new_cpu_monitor-cfg_example : (new_cpu_monitor monitor.cfg).cfg ≡ monitor.cfg
unfolding program
new_cpu_monitor-cfg_example =
    new_cpu_monitor-cfg monitor.cfg (new_cpu_monitor-IsUsable unset).0 refl

abbrev samples : List Usage
samples = record { busy = 99; total = 100 } ∷ record { busy = 98; total = 100 } ∷ []

-- Two busy samples in a row, after a reading that fails.
abbrev first : LoopState × CpuMonitor
first = tick (loop_start 100 1000) monitor none 1

abbrev second_tick : LoopState × CpuMonitor
second_tick = tick first.0 first.1 (some (102, 1100)) 2

abbrev third : LoopState × CpuMonitor
third = tick second_tick.0 second_tick.1 (some (103, 1200)) 3

two_hot : Reach monitor third.0 third.1 samples
unfolding program
two_hot =
    sample (some (103, 1200)) 3 _
      (sample (some (102, 1100)) 2 _ (skip none 1 (start 100 1000) refl) refl) refl

third_is_overloaded : third.1.overloaded ≡ true
unfolding program
third_is_overloaded = refl

Reach-flags_example :
    let h = samples in
    let c = monitor.cfg in
    (third.1.overloaded ≡ flag (is_hot c) (need_above c) (is_cold c) (need_below c) h)
    × (third.1.critical ≡ flag (is_critical c) (need_critical c) (is_calm c) (need_below c) h)
unfolding new_cpu_monitor
Reach-flags_example = Reach-flags refl refl two_hot
