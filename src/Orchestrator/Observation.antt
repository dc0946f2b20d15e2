-- ===== src/Orchestrator/Observation.antt =====
-- orchestrator/orchestrator.go: the counters of what was served, and two settings.
use qmdsr.Prelude.{
  ℕ, ◌+◌, ◌%◌, ◌≡◌, Bool, ◌&&◌, ◌||◌, List, [], ◌∷◌, arith, leb, ◌==◌, if◌then◌else◌, length, count,
}
use qmdsr.Prelude.Int.{ℤ, pos, sub_ℕ, leb_ℤ, is_pos}
use qmdsr.Config.{RuntimeConfig}

-- The fields `obs…`; the sums are exact.
pub record Observations : Type 0 where
  pub samples : ℕ
  pub latency_sum : ℕ
  pub hits_sum : ℕ
  pub hit_zero : ℕ
  pub hit_low : ℕ
  pub hit_mid : ℕ
  pub hit_high : ℕ
  pub degraded : ℕ
  pub last_log_at : ℕ

pub record Sample : Type 0 where
  pub latency_ms : ℕ
  pub hits : ℕ
  pub degraded : Bool
  pub now : ℕ

unfoldable pub count_hits : ℕ → Observations → Observations
count_hits hits o =
    if hits == 0
    then record o { hit_zero = o.hit_zero + 1 }
    else if leb hits 3
    then record o { hit_low = o.hit_low + 1 }
    else if leb hits 8
    then record o { hit_mid = o.hit_mid + 1 }
    else record o { hit_high = o.hit_high + 1 }

abbrev pub log_interval : ℤ
log_interval = pos 1_800_000_000_000

unfoldable pub should_log : Observations → ℕ → Bool
should_log o now = o.samples % 50 == 0 || leb_ℤ log_interval (sub_ℕ now o.last_log_at)

-- `observeSearchSample`, and whether it writes a line of averages.
unfoldable pub observe_search_sample : Sample → Observations → Observations × Bool
observe_search_sample s o =
    let counted = count_hits s.hits (record o {
      samples = o.samples + 1;
      latency_sum = o.latency_sum + s.latency_ms;
      hits_sum = o.hits_sum + s.hits;
      degraded = o.degraded + (if s.degraded then 1 else 0);
    }) in
    let log = should_log counted s.now in
    (record counted { last_log_at = if log then s.now else counted.last_log_at }, log)

unfoldable pub observe_all : List Sample → Observations → Observations
observe_all [] o = o
observe_all (s ∷ ss) o = observe_all ss (observe_search_sample s o).0

unfoldable pub new_observations : ℕ → Observations
new_observations now = record {
  samples = 0;
  latency_sum = 0;
  hits_sum = 0;
  hit_zero = 0;
  hit_low = 0;
  hit_mid = 0;
  hit_high = 0;
  degraded = 0;
  last_log_at = now;
}

unfoldable pub deep_fail_timeout : RuntimeConfig → ℤ
deep_fail_timeout r =
    if is_pos r.deep_fail_timeout
    then r.deep_fail_timeout
    else if is_pos r.query_timeout
    then r.query_timeout
    else pos 12_000_000_000

abbrev pub is_degraded : Sample → Bool
is_degraded s = s.degraded

abbrev pub total_hits : List Sample → ℕ
total_hits [] = 0
total_hits (s ∷ ss) = s.hits + total_hits ss

abbrev pub total_latency : List Sample → ℕ
total_latency [] = 0
total_latency (s ∷ ss) = s.latency_ms + total_latency ss

-- The samples with so many hits.
abbrev pub hits_between : ℕ → ℕ → Sample → Bool
hits_between low high s = leb low s.hits && leb s.hits high

-- What the counters hold after these samples, on top of what they held.
pub record IsObserved (o : Observations) (ss : List Sample) (o' : Observations) : Type 0 where
  pub samples : o'.samples ≡ o.samples + length ss
  pub latencies : o'.latency_sum ≡ o.latency_sum + total_latency ss
  pub hits : o'.hits_sum ≡ o.hits_sum + total_hits ss
  pub degraded : o'.degraded ≡ o.degraded + count is_degraded ss
  pub zero : o'.hit_zero ≡ o.hit_zero + count (hits_between 0 0) ss
  pub low : o'.hit_low ≡ o.hit_low + count (hits_between 1 3) ss
  pub mid : o'.hit_mid ≡ o.hit_mid + count (hits_between 4 8) ss
  pub high : o'.hit_high + count (hits_between 0 8) ss ≡ o.hit_high + length ss

-- The counters hold the number of the samples, the sums of their latencies and hits, and how many
-- were degraded; and each class of hits holds how many had none, one to three, four to eight, or more.
pub observe_all_lem : (ss : List Sample) (o : Observations) → IsObserved o ss (observe_all ss o)
unfolding observe_all observe_search_sample count_hits
observe_all_lem [] o = record {
  samples = omega arith;
  latencies = omega arith;
  hits = omega arith;
  degraded = omega arith;
  zero = omega arith;
  low = omega arith;
  mid = omega arith;
  high = omega arith;
}
observe_all_lem (s ∷ ss) o =
    let k = observe_all_lem ss (observe_search_sample s o).0 in
    record {
      samples = ground (arith, k.samples);
      latencies = ground (arith, k.latencies);
      hits = ground (arith, k.hits);
      degraded = ground (arith, k.degraded);
      zero = ground (arith, k.zero);
      low = ground (arith, k.low);
      mid = ground (arith, k.mid);
      high = ground (arith, k.high);
    }
