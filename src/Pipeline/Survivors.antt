-- ===== src/Pipeline/Survivors.antt =====
-- The passes of stage1 over the ports, as the sweeps of internal/scan run them.
use rain_scanner.Base.{
  ℕ, ◌≡◌, refl, sym, ◌∙◌, Bool, false, List, [], ◌∷◌, ◌++◌, All, ℤ, Text, map, keep, count_if,
  arith,
}
use rain_scanner.IpRange.Addr.{Addr}
use rain_scanner.Pipeline.{Endpoint, survivors_of, stage1}
use rain_scanner.Scan.Pool.{Options, slots, Pool, closed, start, Run}
use rain_scanner.Scan.Pool.Invariant.{received_complete}
use rain_scanner.Scan.Pool.Weights.{count_if-append}

-- The loop over the results of a sweep.
unfoldable pub collected : (Addr → Text) → ℤ → List Addr → List Endpoint
collected string_of port received = map (λ a. record { ip = string_of a; port = port }) received

count_if-map {ℓ κ} :
    {A : Type ℓ} {B : Type κ} (q : B → Bool) (f : A → B) (xs : List A)
    → count_if q (map f xs) ≡ count_if (λ x. q (f x)) xs
count_if-map q f [] = refl
count_if-map q f (x ∷ xs) = ground (arith, count_if-map q f xs)

module _ (string_of : Addr → Text) (accepts : Addr → ℤ → Bool) (port : ℤ) where
  count_if-survivors_of :
      (q : Endpoint → Bool) (hosts : List Addr)
      → count_if q (survivors_of string_of accepts port hosts)
        ≡ count_if
            (λ a. q (record { ip = string_of a; port = port }))
            (keep (λ a. accepts a port) hosts)
  count_if-survivors_of q [] = refl
  count_if-survivors_of q (h ∷ hosts) = ground (arith, count_if-survivors_of q hosts)

  -- What stage1 collects from the channel of one sweep.
  pub collected-survivors_of :
      (o : Options) (hosts : List Addr) (n : ℕ) (p : Pool)
      → Run (λ a. accepts a port) (slots o) (start hosts) n p
      → p.phase ≡ closed
      → p.shared.queue ≡ []
      → p.shared.cancelled ≡ false
      → (q : Endpoint → Bool)
      → count_if q (collected string_of port p.shared.received)
        ≡ count_if q (survivors_of string_of accepts port hosts)
  unfolding collected
  collected-survivors_of o hosts n p run over empty running q =
      let test = λ (a : Addr). q (record { ip = string_of a; port = port }) in
      let all =
        received_complete (λ a. accepts a port) (slots o) hosts n p run over empty running in
      count_if-map q _ p.shared.received ∙ all.0 test ∙ sym (count_if-survivors_of q hosts)

module _ (string_of : Addr → Text) (accepts : Addr → ℤ → Bool) (o : Options)
    (hosts : List Addr) where
  -- A sweep for a port, in some interleaving, that is over and that nobody cancelled.
  pub record Sweep (port : ℤ) : Type 0 where
    pub steps : ℕ
    pub last : Pool
    pub run : Run (λ a. accepts a port) (slots o) (start hosts) steps last
    pub over : last.phase ≡ closed
    pub drained : last.shared.queue ≡ []
    pub running : last.shared.cancelled ≡ false

  -- The loop of stage1 over the ports.
  unfoldable pub collected_all : (ports : List ℤ) → All Sweep ports → List Endpoint
  collected_all [] sweeps = []
  collected_all (port ∷ ports) (sweep, sweeps) =
      collected string_of port sweep.last.shared.received ++ collected_all ports sweeps

  -- In every interleaving of the sweeps that stage1 runs, one for each port, when nobody cancels them: the survivors are,
  -- order aside, those of the sequential passes over the hosts, each as often.
  pub collected_all-stage1 :
      (ports : List ℤ) (sweeps : All Sweep ports) (q : Endpoint → Bool)
      → count_if q (collected_all ports sweeps) ≡ count_if q (stage1 string_of accepts ports hosts)
  unfolding collected_all stage1
  collected_all-stage1 [] sweeps q = refl
  collected_all-stage1 (port ∷ ports) (s, sweeps) q = omega (
    arith,
    count_if-append q (collected string_of port s.last.shared.received)
        (collected_all ports sweeps),
    count_if-append q (survivors_of string_of accepts port hosts)
        (stage1 string_of accepts ports hosts),
    collected-survivors_of string_of accepts port o hosts s.steps s.last s.run s.over s.drained
        s.running q,
    collected_all-stage1 ports sweeps q,
  )
