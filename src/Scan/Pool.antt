-- ===== src/Scan/Pool.antt =====
-- The sweep of internal/scan/tcp.go: Run's launching loop, its goroutines and the consumer of its channel, as a step
-- relation over all interleavings. `reachable` tells which hosts accept a connection in time, and the callback
-- for progress is given, as stage1 gives it. The port is below 10^6: itoa, which is in Xray/Itoa, panics on a larger one
-- in dial, and that is no step.
pub mod Weights
pub mod Invariant
pub mod Progress
use rain_scanner.Base.{
  ℕ, zero, suc, ◌+◌, ◌-◌, ◌≡◌, ◌<◌, ◌⊎◌, Bool, true, false, not, ◌&&◌, List, [], ◌∷◌, ◌++◌,
  if◌then◌else◌, ℤ, pos, is_pos, pos_part, length, Text, codes,
}
use rain_scanner.IpRange.Addr.{Addr, is6, is4in6}

pub record Options : Type 0 where
  pub port : ℤ
  pub concurrency : ℤ
  pub timeout : ℤ

-- The defaults at the head of Run; the timeout is in nanoseconds.
unfoldable pub with_defaults : Options → Options
with_defaults o = record o {
  concurrency = if is_pos o.concurrency then o.concurrency else pos 512;
  timeout = if is_pos o.timeout then o.timeout else pos 3000000000;
}

-- The capacity of the semaphore.
unfoldable pub slots : Options → ℕ
unfolding with_defaults
slots o = pos_part (with_defaults o).concurrency

-- The network that dial names.
unfoldable pub network_of : Addr → Text
network_of a = if is6 a && not (is4in6 a) then codes "tcp6" else codes "tcp4"

-- The capacity of the channel of results.
abbrev pub buffer : ℕ
buffer = 256

-- Where a goroutine is: in dial, before the send of its result, before the count of the hosts that are done, before the
-- callback with its count, and before each of its two deferred calls.
pub data Worker : Type 0 where
  dialing sending counting : Addr → Worker
  reporting : ℕ → Worker
  releasing finishing : Worker

-- The variables that the goroutines share: the channel, what its consumer has received, the counter, the calls of the
-- callback, the semaphore and the context.
pub record Shared : Type 0 where
  pub queue : List Addr
  pub received : List Addr
  pub done : ℕ
  pub reported : List ℕ
  pub sem : ℕ
  pub cancelled : Bool

-- Where the launching loop is: at its head, in wg.Wait, or returned with the channel closed.
pub data Phase : Type 0 where
  launching draining closed : Phase

pub record Pool : Type 0 where
  pub left : List Addr
  pub workers : List Worker
  pub phase : Phase
  pub shared : Shared

unfoldable pub start : List Addr → Pool
start hosts = record {
  left = hosts;
  workers = [];
  phase = launching;
  shared = record {
    queue = [];
    received = [];
    done = 0;
    reported = [];
    sem = 0;
    cancelled = false;
  };
}

module _ (reachable : Addr → Bool) where
  -- One statement of a goroutine: the shared variables and the goroutine, before and after; it is gone after the last.
  -- A dial fails if the host does not accept, or if the context is cancelled meanwhile.
  pub data Move : Shared → Worker → Shared → List Worker → Type 0 where
    connects : (s : Shared) (a : Addr) → reachable a ≡ true → Move s (dialing a) s (sending a ∷ [])
    fails :
        (s : Shared) (a : Addr)
        → (reachable a ≡ false) ⊎ (s.cancelled ≡ true)
        → Move s (dialing a) s (counting a ∷ [])
    sends :
        (s : Shared) (a : Addr)
        → length s.queue < buffer
        → Move s (sending a) (record s { queue = s.queue ++ a ∷ [] }) (counting a ∷ [])
    gives_up : (s : Shared) (a : Addr) → s.cancelled ≡ true → Move s (sending a) s (counting a ∷ [])
    counts :
        (s : Shared) (a : Addr)
        → Move s (counting a) (record s { done = s.done + 1 }) (reporting (s.done + 1) ∷ [])
    reports :
        (s : Shared) (d : ℕ)
        → Move s (reporting d) (record s { reported = s.reported ++ d ∷ [] }) (releasing ∷ [])
    releases : (s : Shared) → Move s releasing (record s { sem = s.sem - 1 }) (finishing ∷ [])
    finishes : (s : Shared) → Move s finishing s []

  module _ (capacity : ℕ) where
    -- The steps of the launching loop, of any goroutine, of the consumer and of whoever cancels the context.
    pub data Step : Pool → Pool → Type 0 where
      launches :
          (p : Pool) (h : Addr) (t : List Addr)
          → p.phase ≡ launching
          → p.left ≡ h ∷ t
          → p.shared.sem < capacity
          → Step p (record {
            left = t;
            workers = dialing h ∷ p.workers;
            phase = launching;
            shared = record p.shared { sem = p.shared.sem + 1 };
          })
      stops :
          (p : Pool) (h : Addr) (t : List Addr)
          → p.phase ≡ launching
          → p.left ≡ h ∷ t
          → p.shared.cancelled ≡ true
          → Step p (record p { phase = draining })
      ends : (p : Pool) → p.phase ≡ launching → p.left ≡ [] → Step p (record p { phase = draining })
      closes :
          (p : Pool) → p.phase ≡ draining → p.workers ≡ [] → Step p (record p { phase = closed })
      works :
          (p : Pool) (before : List Worker) (w : Worker) (behind w' : List Worker) (s : Shared)
          → p.workers ≡ before ++ w ∷ behind
          → Move p.shared w s w'
          → Step p (record p { workers = before ++ w' ++ behind; shared = s })
      receives :
          (p : Pool) (a : Addr) (q : List Addr)
          → p.shared.queue ≡ a ∷ q
          → Step p (record p {
            shared = record p.shared { queue = q; received = p.shared.received ++ a ∷ [] };
          })
      cancels :
          (p : Pool)
          → p.shared.cancelled ≡ false
          → Step p (record p { shared = record p.shared { cancelled = true } })

    -- A run of `n` steps.
    pub data Run (p : Pool) : ℕ → Pool → Type 0 where
      here : Run p zero p
      next : (n : ℕ) (a b : Pool) → Run p n a → Step a b → Run p (suc n) b
