-- ===== src/Xray/Wait.antt =====
-- waitPort and probeOnce of internal/xray/prober.go. Durations are nanoseconds.
use rain_scanner.Base.{
  ℕ, zero, suc, ◌+◌, ◌*◌, ◌/◌, ◌≡◌, ap, ◌∙◌, ◌≤◌, ◌<◌, inl, inr, refl, Bool, true, false, Option,
  none, some, if◌then◌else◌, ltb, leb, is_some, arith, ◌↔◌, ◌≢◌, Option-cases, Bool-cases,
}

-- time.Sleep(50 * time.Millisecond)
abbrev pub poll_interval : ℕ
poll_interval = 50000000

-- The i-th round: whether the context is done, whether the dial is answered, and how long the dial and the sleep take
-- beyond the interval.
pub record Round : Type 0 where
  pub cancelled : Bool
  pub answered : Bool
  pub delay : ℕ

-- The rounds after the first.
abbrev pub later : (ℕ → Round) → ℕ → Round
later round i = round (suc i)

-- When the second round begins, if the first begins at `now`.
abbrev pub next_time : (ℕ → Round) → ℕ → ℕ
next_time round now = now + poll_interval + (round 0).delay

-- The loop at the time `now`, with `none` where `fuel` does not suffice; the clock does not run backwards.
unfoldable pub poll : (ℕ → Round) → ℕ → ℕ → ℕ → Option Bool
poll round deadline zero now = none
poll round deadline (suc fuel) now =
    let rest = poll (later round) deadline fuel (next_time round now) in
    if ltb now deadline
    then (if (round 0).cancelled
        then some false
        else if (round 0).answered
        then some true
        else rest)
    else some false

-- The rounds that fit before the deadline, and the one that sees it.
abbrev pub rounds_of : ℕ → ℕ
rounds_of timeout = suc (timeout / poll_interval + 1)

unfoldable pub wait_port : (ℕ → Round) → ℕ → ℕ → Option Bool
wait_port round timeout now = poll round (now + timeout) (rounds_of timeout) now

-- One request: what client.Do gives is its status, or a failure, and `elapsed` the time since it began.
unfoldable pub probe_once : Bool → Option ℕ → ℕ → Option ℕ
probe_once is_url none elapsed = none
probe_once is_url (some status) elapsed =
    if is_url then (if leb 400 status then none else some elapsed) else none

-- What one round of the loop gives, by what the rest gives.
poll-suc :
    (round : ℕ → Round) (deadline fuel now : ℕ) (rest : Option Bool)
    → poll (later round) deadline fuel (next_time round now) ≡ rest
    → poll round deadline (suc fuel) now ≡ (
        if ltb now deadline
        then (if (round 0).cancelled
            then some false
            else if (round 0).answered
            then some true
            else rest)
        else some false)
unfolding poll
poll-suc round deadline fuel now rest e = rw e refl

poll-is_some :
    (round : ℕ → Round) (deadline n now : ℕ)
    → deadline ≤ now + n * poll_interval
    → is_some (poll round deadline (suc n) now) ≡ true
poll-is_some round deadline zero now h = rw (poll-suc round deadline zero now _ refl) (ground arith)
poll-is_some round deadline (suc n) now h =
    let fits : deadline ≤ next_time round now + n * poll_interval = omega arith in
    let rest : is_some (poll (later round) deadline (suc n) (next_time round now)) ≡ true =
      poll-is_some (later round) deadline n (next_time round now) fits in
    rw (poll-suc round deadline (suc n) now _ refl) (ground (arith, rest))

-- When round k begins, if the first begins at `now`.
unfoldable pub begins : (ℕ → Round) → ℕ → ℕ → ℕ
begins round now zero = now
begins round now (suc k) = begins (later round) (next_time round now) k

begins-le : (round : ℕ → Round) (now k : ℕ) → now ≤ begins round now k
unfolding begins
begins-le round now zero = omega arith
begins-le round now (suc k) = omega (arith, begins-le (later round) (next_time round now) k)

-- Round k begins before the deadline, it is answered, and the context is done in none up to it.
abbrev pub IsAnswered : (ℕ → Round) → ℕ → ℕ → ℕ → Type 0
IsAnswered round deadline now k =
    (begins round now k < deadline)
    × ((round k).answered ≡ true)
    × ((j : ℕ) → j ≤ k → (round j).cancelled ≡ false)

none_at_zero : (round : ℕ → Round) (deadline now : ℕ) → poll round deadline 0 now ≡ none
unfolding poll
none_at_zero round deadline now = refl

poll-true :
    (round : ℕ → Round) (deadline fuel now : ℕ)
    → poll round deadline fuel now ≡ some true
    → (k : ℕ) × IsAnswered round deadline now k
unfolding begins
poll-true round deadline zero now h = cc (rw (none_at_zero round deadline now) at h)
poll-true round deadline (suc fuel) now h =
    let rest : Option Bool = poll (later round) deadline fuel (next_time round now) in
    let h' = rw (poll-suc round deadline fuel now rest refl) at h in
    elim (Bool-cases (ltb now deadline)) [
      | inr e ↦ cc (rw e at h')
      | inl e ↦ elim (Bool-cases (round 0).cancelled) [
        | inl c ↦ cc (rw (e, c) at h')
        | inr c ↦ elim (Bool-cases (round 0).answered) [
          | inl a ↦ (0, (ground (arith, e), a, λ j le. first c j le))
          | inr a ↦
              let (k, (before, hit, live)) =
                poll-true (later round) deadline fuel (next_time round now) (rw (e, c, a) at h') in
              (suc k, (before, hit, λ j le. all_live c k live j le))
        ]
      ]
    ]
  where
    first : (round 0).cancelled ≡ false → (j : ℕ) → j ≤ 0 → (round j).cancelled ≡ false
    first c zero le = c
    first c (suc j) le = absurd (omega arith)

    all_live :
        (round 0).cancelled ≡ false
        → (k : ℕ) → ((j : ℕ) → j ≤ k → (round (suc j)).cancelled ≡ false)
        → (j : ℕ) → j ≤ suc k
        → (round j).cancelled ≡ false
    all_live c k live zero le = c
    all_live c k live (suc j) le = live j (omega arith)

poll-false :
    (round : ℕ → Round) (deadline fuel now k : ℕ)
    → IsAnswered round deadline now k
    → poll round deadline fuel now ≢ some false
unfolding begins
poll-false round deadline zero now k r h = cc (rw (none_at_zero round deadline now) at h)
poll-false round deadline (suc fuel) now zero r h =
    let rest : Option Bool = poll (later round) deadline fuel (next_time round now) in
    let started : ltb now deadline ≡ true = ground (arith, r.0) in
    let live : (round 0).cancelled ≡ false = r.2 0 (omega arith) in
    cc (rw (poll-suc round deadline fuel now rest refl, started, live, r.1) at h)
poll-false round deadline (suc fuel) now (suc k) r h =
    let rest : Option Bool = poll (later round) deadline fuel (next_time round now) in
    let started : ltb now deadline ≡ true =
      ground (arith, r.0, begins-le (later round) (next_time round now) k) in
    let live : (round 0).cancelled ≡ false = r.2 0 (omega arith) in
    let h' = rw (poll-suc round deadline fuel now rest refl, started, live) at h in
    elim (Bool-cases (round 0).answered) [
      | inl a ↦ cc (rw a at h')
      | inr a ↦
          poll-false (later round) deadline fuel (next_time round now) k
            (r.0, r.1, λ j le. r.2 (suc j) (omega arith)) (rw a at h')
    ]

is_true : (b : Bool) → b ≢ false → b ≡ true
is_true true h = refl
is_true false h = absurd (h refl)

-- The loop ends, within two rounds more than fit before the deadline, and says true exactly when a round that begins
-- before it is answered and the context is done neither in it nor in one before.
pub wait_port_lem :
    (round : ℕ → Round) (timeout now : ℕ)
    → (b : Bool) × (wait_port round timeout now ≡ some b)
      × ((b ≡ true) ↔ ((k : ℕ) × IsAnswered round (now + timeout) now k))
unfolding wait_port
wait_port_lem round timeout now =
    let deadline : ℕ = now + timeout in
    let n : ℕ = timeout / poll_interval + 1 in
    let whole : Option Bool = poll round deadline (suc n) now in
    let fits : deadline ≤ now + n * poll_interval = omega arith in
    let ends : is_some whole ≡ true = poll-is_some round deadline n now fits in
    elim (Option-cases whole) [
      | inl e ↦ cc (rw e at ends)
      | inr (b, e) ↦ (
        b,
        e,
        (
          (λ yes. poll-true round deadline (suc n) now (e ∙ ap some yes)),
          (λ r. is_true b (λ no. poll-false round deadline (suc n) now r.0 r.1 (e ∙ ap some no))),
        ),
      )
    ]
