-- ===== src/Pipeline/Counts.antt =====
-- The numbers of a summary fit one another.
use rain_scanner.Base.{
  ℕ, ◌+◌, ◌*◌, ◌≡◌, ◌≤◌, refl, ap, subst, Bool, not, List, [], ◌∷◌, length, length-append, count_if,
  arith, ℤ, Text, Result, ok, Yields, Yields-bind, ok_injective,
}
use rain_scanner.IpRange.Addr.{Addr, is4}
use rain_scanner.IpRange.Family.{Strategy}
use rain_scanner.IpRange.Netip.{Netip}
use rain_scanner.IpRange.Entries.{filter}
use rain_scanner.IpRange.Entries.Laws.{split-filter}
use rain_scanner.Xray.Batch.{BatchItem}
use rain_scanner.Xray.Probe.{TestResult}
use rain_scanner.Output.{Entry, faster}
use rain_scanner.Base.Sorting.{IsSorted}
use rain_scanner.Output.Names.{sorted-IsSorted}
use rain_scanner.Pipeline.{
  Endpoint, Summary, survivors_of, stage1, parsed, items_of, entries_of, confirm_batch, confirm_all,
  chunk_endpoints, stage2, run_one,
}
use rain_scanner.Pipeline.Chunks.{concat, chunk_endpoints_lem}

length-survivors_of-le :
    (string_of : Addr → Text) (reachable : Addr → ℤ → Bool) (p : ℤ) (hosts : List Addr)
    → length (survivors_of string_of reachable p hosts) ≤ length hosts
length-survivors_of-le string_of reachable p [] = omega arith
length-survivors_of-le string_of reachable p (h ∷ hosts) =
    ground (arith, length-survivors_of-le string_of reachable p hosts)

length-stage1-le :
    (string_of : Addr → Text) (reachable : Addr → ℤ → Bool) (ps : List ℤ) (hosts : List Addr)
    → length (stage1 string_of reachable ps hosts) ≤ length ps * length hosts
unfolding stage1
length-stage1-le string_of reachable [] hosts = omega arith
length-stage1-le string_of reachable (p ∷ ps) hosts = grind (
  arith,
  length-append (survivors_of string_of reachable p hosts) (stage1 string_of reachable ps hosts),
  length-survivors_of-le string_of reachable p hosts,
  length-stage1-le string_of reachable ps hosts,
)

count_partition :
    (p : Addr → Bool) (l : List Addr) → count_if p l + count_if (λ h. not (p h)) l ≡ length l
count_partition p [] = refl
count_partition p (h ∷ l) = ground (arith, count_partition p l)

module _ (np : Netip) (test : List BatchItem → List TestResult) where
  length-entries_of-le :
      (eps : List Endpoint) (trs : List TestResult)
      → length (entries_of np test eps trs) ≤ length eps
  unfolding entries_of
  length-entries_of-le [] trs = omega arith
  length-entries_of-le (ep ∷ eps) [] = omega arith
  length-entries_of-le (ep ∷ eps) (tr ∷ trs) = ground (arith, length-entries_of-le eps trs)

  length-parsed-le : (eps : List Endpoint) → length (parsed np test eps) ≤ length eps
  length-parsed-le [] = omega arith
  length-parsed-le (ep ∷ eps) = ground (arith, length-parsed-le eps)

  length-confirm_all-le :
      (bs : List (List Endpoint)) → length (confirm_all np test bs) ≤ length (concat bs)
  unfolding confirm_batch
  length-confirm_all-le [] = omega arith
  length-confirm_all-le (b ∷ bs) = omega (
    arith,
    length-append b (concat bs),
    length-append (confirm_batch np test b) (confirm_all np test bs),
    length-entries_of-le (parsed np test b) (test (items_of np test b)),
    length-parsed-le b,
    length-confirm_all-le bs,
  )

  length-stage2-le :
      (probing : Bool) (size : ℤ) (eps : List Endpoint)
      → length (stage2 np test probing size eps) ≤ length eps
  unfolding stage2
  length-stage2-le probing size eps =
      let (whole, _) = chunk_endpoints_lem eps size in
      ground (arith, length-confirm_all-le (chunk_endpoints eps size), ap length whole)

  -- How the numbers of a summary fit one another, for a run over `ports` ports.
  pub record IsConsistent (ports : ℕ) (s : Summary) : Type 0 where
    pub ranges_add_up : s.ranges_v4 + s.ranges_v6 ≡ s.ranges
    pub hosts_add_up : s.hosts_v4 + s.hosts_v6 ≡ s.hosts
    pub open_bounded : s.tcp_open ≤ ports * s.hosts
    pub confirmed_bounded : s.confirmed ≤ s.tcp_open
    pub in_order : IsSorted faster s.entries

  -- The summary of a run that succeeds, whatever the network, the probes and the file system answer: the IPv4 and the IPv6 ranges make
  -- up the ranges, the IPv4 and the IPv6 hosts the hosts; there are at most as many open endpoints as hosts times
  -- ports, and at most as many confirmed ones as open ones; and the entries are in the order of their latency.
  pub run_one-IsConsistent :
      (write : Text → List Entry → Result Text (Unit {0})) (string_of : Addr → Text)
      (reachable : Addr → ℤ → Bool) (draws picks : ℕ → ℕ) (st : Strategy) (ps : List ℤ)
      (probing : Bool) (size : ℤ) (name : Text) (cidrs : List Text) (s : Summary)
      → run_one np test write string_of reachable draws picks st ps probing size name cidrs ≡ ok s
      → IsConsistent (length ps) s
  unfolding run_one
  run_one-IsConsistent write string_of reachable draws picks st ps probing size name cidrs s e =
      let kept = filter np cidrs st.family in
      let yields : Yields (IsConsistent (length ps))
          (run_one np test write string_of reachable draws picks st ps probing size name cidrs) =
        Yields-bind _ _ _ λ hosts _. Yields-bind _ _ _ λ _ _. record {
          at = λ s' e'. subst (IsConsistent (length ps)) (ok_injective e') (record {
            ranges_add_up = split-filter np st.family cidrs;
            hosts_add_up = count_partition is4 hosts;
            open_bounded = length-stage1-le string_of reachable ps hosts;
            confirmed_bounded = length-stage2-le probing size (stage1 string_of reachable ps hosts);
            in_order =
                (sorted-IsSorted
                  (stage2 np test probing size (stage1 string_of reachable ps hosts))).1;
          });
        } in
      yields.at s e
