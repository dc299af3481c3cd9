-- ===== src/Xray/Options.antt =====
-- ProberOptions and NewProber of internal/xray/prober.go. Durations are nanoseconds; the machine width of
-- `2*opt.MaxLatency` is left out, since the caller's budget is at most a minute.
use rain_scanner.Base.{
  ℕ, ◌+◌, ◌*◌, ◌/◌, ◌≤◌, ◌≡◌, max, ℤ, Option, if◌then◌else◌, ltb, is_pos, pos_part, Text, codes,
  is_empty, Result, ok, ◌>>=◌, ◌>>◌, require, or_error, arith, not, Yields, Yields-bind,
  ok_injective, subst, sym,
}
use rain_scanner.Link.Outbound.{Outbound}

pub record ProberOptions : Type 0 where
  pub xray_path : Text
  pub outbound : Option Outbound
  pub probe_url : Text
  pub probes : ℤ
  pub confirm : ℤ
  pub max_latency : ℤ
  pub probe_timeout : ℤ
  pub startup : ℤ
  pub batch_concurrency : ℤ

-- The options a Prober holds: the outbound is there and every number is positive.
pub record Prober : Type 0 where
  pub xray_path : Text
  pub outbound : Outbound
  pub probe_url : Text
  pub probes : ℕ
  pub confirm : ℕ
  pub max_latency : ℕ
  pub probe_timeout : ℕ
  pub startup : ℕ
  pub batch_concurrency : ℕ

pub data OptionError : Type 0 where
  xray_path_required outbound_required : OptionError

-- if z <= 0 { z = d }
unfoldable pub positive : ℤ → ℕ → ℕ
positive z d = if is_pos z then pos_part z else d

unfoldable pub confirm_of : ℕ → ℤ → ℕ
unfolding positive
confirm_of probes confirm =
    let c = positive confirm (probes / 2 + 1) in if ltb probes c then probes else c

unfoldable pub timeout_of : ℕ → ℤ → ℕ
unfolding positive
timeout_of max_latency timeout = positive timeout (max (2 * max_latency) 1500000000)

-- The options with their defaults.
unfoldable pub prober_of : ProberOptions → Outbound → Prober
unfolding positive
prober_of opt outbound =
    let probes = positive opt.probes 5 in
    let max_latency = positive opt.max_latency 1000000000 in
    record {
      xray_path = opt.xray_path;
      outbound = outbound;
      probe_url =
          if is_empty opt.probe_url
          then codes "https://www.gstatic.com/generate_204"
          else opt.probe_url;
      probes = probes;
      confirm = confirm_of probes opt.confirm;
      max_latency = max_latency;
      probe_timeout = timeout_of max_latency opt.probe_timeout;
      startup = positive opt.startup 5000000000;
      batch_concurrency = positive opt.batch_concurrency 10;
    }

unfoldable pub new_prober : ProberOptions → Result OptionError Prober
new_prober opt = do
  require (not (is_empty opt.xray_path)) xray_path_required
  outbound ← or_error opt.outbound outbound_required
  ok (prober_of opt outbound)

-- The bounds that the measurement relies on.
pub record IsSound (p : Prober) : Type 0 where
  pub confirm_low : 1 ≤ p.confirm
  pub confirm_high : p.confirm ≤ p.probes
  pub latency_positive : 1 ≤ p.max_latency
  pub timeout_positive : 1 ≤ p.probe_timeout
  pub concurrency_positive : 1 ≤ p.batch_concurrency

positive-low : (z : ℤ) (d : ℕ) → 1 ≤ d → 1 ≤ positive z d
unfolding positive
positive-low z d h = ground arith

confirm_of_lem :
    (probes : ℕ) (confirm : ℤ)
    → 1 ≤ probes
    → (1 ≤ confirm_of probes confirm) × (confirm_of probes confirm ≤ probes)
unfolding confirm_of
confirm_of_lem probes confirm h = ground (arith, positive-low confirm (probes / 2 + 1))

timeout_of-low : (l : ℕ) (t : ℤ) → 1 ≤ timeout_of l t
unfolding timeout_of
timeout_of-low l t = positive-low t (max (2 * l) 1500000000) (omega arith)

prober_of-IsSound : (opt : ProberOptions) (o : Outbound) → IsSound (prober_of opt o)
unfolding prober_of
prober_of-IsSound opt o =
    let probes = positive-low opt.probes 5 (omega arith) in
    let (low, high) = confirm_of_lem (positive opt.probes 5) opt.confirm probes in
    record {
      confirm_low = low;
      confirm_high = high;
      latency_positive = positive-low opt.max_latency 1000000000 (omega arith);
      timeout_positive = timeout_of-low (positive opt.max_latency 1000000000) opt.probe_timeout;
      concurrency_positive = positive-low opt.batch_concurrency 10 (omega arith);
    }

-- A prober that NewProber gives is its options with the defaults.
pub new_prober-prober_of :
    (opt : ProberOptions) (p : Prober)
    → new_prober opt ≡ ok p
    → (o : Outbound) × (p ≡ prober_of opt o)
unfolding new_prober
new_prober-prober_of opt p e =
    let yields : Yields (λ q. (o : Outbound) × (q ≡ prober_of opt o)) (new_prober opt) =
      Yields-bind _ _ _
        λ _ _. Yields-bind _ _ _ λ o _. record { at = λ q e'. (o, sym (ok_injective e')) } in
    yields.at p e

-- Whatever options NewProber accepts, the prober asks for at least one success and never for more than its
-- number of probes, and its latency budget, its timeout and its concurrency are positive.
pub new_prober-IsSound : (opt : ProberOptions) (p : Prober) → new_prober opt ≡ ok p → IsSound p
new_prober-IsSound opt p e =
    let (o, same) = new_prober-prober_of opt p e in
    subst IsSound (sym same) (prober_of-IsSound opt o)
