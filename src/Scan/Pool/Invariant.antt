-- ===== src/Scan/Pool/Invariant.antt =====
-- What holds of the sweep in every interleaving: the semaphore counts the goroutines that dial, no host and no progress
-- number is lost or doubled.
use rain_scanner.Base.{
  ℕ, zero, suc, ◌+◌, ◌≡◌, ◌≢◌, ◌≤◌, ◌⊎◌, inl, inr, refl, sym, ap, ◌∙◌, Bool, true, false, ◌&&◌,
  List, [], ◌∷◌, ◌++◌, arith, length, count_if, keep, length-append,
}
use rain_scanner.IpRange.Addr.{Addr}
use rain_scanner.Scan.Pool.{
  Worker, dialing, sending, Shared, launching, closed, Pool, start, Move, connects, fails, sends,
  gives_up, counts, reports, releases, finishes, Step, launches, stops, ends, closes, works,
  receives, cancels, Run, here, next,
}
use rain_scanner.Scan.Pool.Weights.{
  bit, count_if-append, count_if-cons, holds, numbers, numbers-add_one, to_report, total,
  total-append, total_around, uncounted,
}

module _ (reachable : Addr → Bool) where
  -- The goroutines whose host accepts a connection, or may still, and passes `q`, before they have sent it.
  abbrev pub to_send : (Addr → Bool) → Worker → ℕ
  to_send q (dialing a) = bit (reachable a && q a)
  to_send q (sending a) = bit (q a)
  to_send q w = 0

  abbrev pub delivered : (Addr → Bool) → Shared → ℕ
  delivered q s = count_if q s.received + count_if q s.queue

  -- What a statement of a goroutine takes from one sum it adds to another; a host leaves the count of deliveries only
  -- when the context is cancelled.
  record Balance (q : Addr → Bool) (r : ℕ → Bool) (s : Shared) (w : Worker) (s' : Shared)
      (w' : List Worker) : Type 0 where
    same_flag : s'.cancelled ≡ s.cancelled
    sem_le : s'.sem ≤ s.sem
    held : s'.sem + holds w ≡ s.sem + total holds w'
    counted : s'.done + total uncounted w' ≡ s.done + uncounted w
    sent_le : delivered q s' + total (to_send q) w' ≤ delivered q s + to_send q w
    sent_all :
        s.cancelled ≡ false → delivered q s' + total (to_send q) w' ≡ delivered q s + to_send q w
    called :
        count_if r s'.reported + total (to_report r) w' + count_if r (numbers s.done)
        ≡ count_if r s.reported + to_report r w + count_if r (numbers s'.done)

  Move-Balance :
      (q : Addr → Bool) (r : ℕ → Bool) {s s' : Shared} {w : Worker} {w' : List Worker}
      → Move reachable s w s' w'
      → holds w ≤ s.sem
      → Balance q r s w s' w'
  Move-Balance q r (connects s a e) h = ground arith
  Move-Balance q r (fails s a (inl e)) h = ground arith
  Move-Balance q r (fails s a (inr e)) h = ground arith
  Move-Balance q r (sends s a room) h = ground (arith, count_if-append q s.queue (a ∷ []))
  Move-Balance q r (gives_up s a e) h = ground arith
  Move-Balance q r (counts s a) h = ground (arith, numbers-add_one r s.done)
  Move-Balance q r (reports s d) h = ground (arith, count_if-append r s.reported (d ∷ []))
  Move-Balance q r (releases s) h = ground arith
  Move-Balance q r (finishes s) h = ground arith

  module _ (capacity : ℕ) (hosts : List Addr) where
    -- The invariant, for one test of addresses and one of numbers.
    pub record IsSound (q : Addr → Bool) (r : ℕ → Bool) (p : Pool) : Type 0 where
      pub held : p.shared.sem ≡ total holds p.workers
      pub few : p.shared.sem ≤ capacity
      pub counted : p.shared.done + total uncounted p.workers + length p.left ≡ length hosts
      pub sent_le :
          delivered q p.shared + total (to_send q) p.workers + count_if q (keep reachable p.left)
          ≤ count_if q (keep reachable hosts)
      pub sent_all :
          p.shared.cancelled ≡ false
          → delivered q p.shared + total (to_send q) p.workers + count_if q (keep reachable p.left)
            ≡ count_if q (keep reachable hosts)
      pub called :
          count_if r p.shared.reported + total (to_report r) p.workers
          ≡ count_if r (numbers p.shared.done)
      pub drained : p.phase ≢ launching → (p.left ≡ []) ⊎ (p.shared.cancelled ≡ true)
      pub idle : p.phase ≡ closed → p.workers ≡ []

    keep-cons :
        (q : Addr → Bool) (h : Addr) (t : List Addr)
        → count_if q (keep reachable (h ∷ t))
          ≡ bit (reachable h && q h) + count_if q (keep reachable t)
    keep-cons q h t = ground arith

    module _ (q : Addr → Bool) (r : ℕ → Bool) where
      start-IsSound : IsSound q r (start hosts)
      unfolding start
      start-IsSound = record {
        held = refl;
        few = omega arith;
        counted = omega arith;
        sent_le = omega arith;
        sent_all = λ _. omega arith;
        called = refl;
        drained = λ n. absurd (n refl);
        idle = λ e. cc;
      }

      Step-IsSound : {a b : Pool} → Step reachable capacity a b → IsSound q r a → IsSound q r b
      Step-IsSound (launches p h t e l room) v = record {
        held = omega (arith, v.held);
        few = omega (arith, room);
        counted = omega (arith, v.counted, ap length l);
        sent_le =
            omega (arith, v.sent_le, ap (λ x. count_if q (keep reachable x)) l, keep-cons q h t);
        sent_all = λ c.
            omega (arith, v.sent_all c, ap (λ x. count_if q (keep reachable x)) l, keep-cons q h t);
        called = omega (arith, v.called);
        drained = λ n. absurd (n refl);
        idle = λ x. cc;
      }
      Step-IsSound (stops p h t e l c) v = record {
        held = v.held;
        few = v.few;
        counted = v.counted;
        sent_le = v.sent_le;
        sent_all = v.sent_all;
        called = v.called;
        drained = λ _. inr c;
        idle = λ x. cc;
      }
      Step-IsSound (ends p e l) v = record {
        held = v.held;
        few = v.few;
        counted = v.counted;
        sent_le = v.sent_le;
        sent_all = v.sent_all;
        called = v.called;
        drained = λ _. inl l;
        idle = λ x. cc;
      }
      Step-IsSound (closes p e none_left) v = record {
        held = v.held;
        few = v.few;
        counted = v.counted;
        sent_le = v.sent_le;
        sent_all = v.sent_all;
        called = v.called;
        drained = λ _. v.drained (λ x. cc);
        idle = λ _. none_left;
      }
      Step-IsSound (works p before w behind w' s e m) v =
          let around = λ (f : Worker → ℕ). ap (total f) e ∙ total-append f before (w ∷ behind) in
          let after = λ (f : Worker → ℕ). total_around f before w' behind in
          let bal = Move-Balance q r m (omega (arith, v.held, around holds)) in
          record {
            held = omega (arith, v.held, bal.held, around holds, after holds);
            few = omega (arith, v.few, bal.sem_le);
            counted = omega (arith, v.counted, bal.counted, around uncounted, after uncounted);
            sent_le = omega (arith, v.sent_le, bal.sent_le, around (to_send q), after (to_send q));
            sent_all = λ c. omega (
              arith,
              v.sent_all (sym bal.same_flag ∙ c),
              bal.sent_all (sym bal.same_flag ∙ c),
              around (to_send q),
              after (to_send q),
            );
            called = omega (arith, v.called, bal.called, around (to_report r), after (to_report r));
            drained = λ n. elim (v.drained n) [ inl l ↦ inl l | inr c ↦ inr (bal.same_flag ∙ c) ];
            idle = λ x.
                absurd
                  (omega (arith, ap length (sym e ∙ v.idle x), length-append before (w ∷ behind)));
          }
      Step-IsSound (receives p a rest e) v =
          let moved : count_if q (p.shared.received ++ a ∷ []) + count_if q rest
              ≡ delivered q p.shared =
            omega (
              arith,
              count_if-append q p.shared.received (a ∷ []),
              count_if-cons q a [],
              ap (count_if q) e,
              count_if-cons q a rest,
            ) in
          record {
            held = v.held;
            few = v.few;
            counted = v.counted;
            sent_le = omega (arith, v.sent_le, moved);
            sent_all = λ c. omega (arith, v.sent_all c, moved);
            called = v.called;
            drained = v.drained;
            idle = v.idle;
          }
      Step-IsSound (cancels p c) v = record {
        held = v.held;
        few = v.few;
        counted = v.counted;
        sent_le = v.sent_le;
        sent_all = λ x. cc;
        called = v.called;
        drained = λ _. inr refl;
        idle = v.idle;
      }

      pub Run-IsSound :
          (n : ℕ) (p : Pool) → Run reachable capacity (start hosts) n p → IsSound q r p
      Run-IsSound zero _ here = start-IsSound
      Run-IsSound (suc n) _ (next _ a b run step) = Step-IsSound step (Run-IsSound n a run)

    -- At any moment of any interleaving at most as many dials are in flight as the semaphore has places, and what the
    -- consumer has received are hosts that accept a connection, each at most as often as it stands in the list.
    pub Run-bounds :
        (n : ℕ) (p : Pool)
        → Run reachable capacity (start hosts) n p
        → (total holds p.workers ≤ capacity)
          × ((q : Addr → Bool) → count_if q p.shared.received ≤ count_if q (keep reachable hosts))
    Run-bounds n p run = (
      let v = Run-IsSound (λ _. true) (λ _. true) n p run in omega (arith, v.held, v.few),
      λ q. let v = Run-IsSound q (λ _. true) n p run in omega (arith, v.sent_le),
    )

    -- When a sweep that nobody cancelled is over, the consumer has received the hosts that accept a connection, each as
    -- often as it stands in the list; every host is counted, and the callback was called once with each number from
    -- 1 to the number of hosts. So it is in every interleaving.
    pub received_complete :
        (n : ℕ) (p : Pool)
        → Run reachable capacity (start hosts) n p
        → p.phase ≡ closed
        → p.shared.queue ≡ []
        → p.shared.cancelled ≡ false
        → ((q : Addr → Bool) → count_if q p.shared.received ≡ count_if q (keep reachable hosts))
          × (p.shared.done ≡ length hosts)
          × ((r : ℕ → Bool) → count_if r p.shared.reported ≡ count_if r (numbers (length hosts)))
    received_complete n p run over empty running =
        let v = Run-IsSound (λ _. true) (λ _. true) n p run in
        let none_left : p.left ≡ [] = elim (v.drained (λ e. cc)) [ inl l ↦ l | inr c ↦ cc ] in
        let idle = v.idle over in
        let all : p.shared.done ≡ length hosts =
          omega (arith, v.counted, ap (total uncounted) idle, ap length none_left) in
        (
          λ q.
              let w = Run-IsSound q (λ _. true) n p run in
              omega (
                arith,
                w.sent_all running,
                ap (total (to_send q)) idle,
                ap (λ l. count_if q (keep reachable l)) none_left,
                ap (count_if q) empty,
              ),
          all,
          λ r.
              let w = Run-IsSound (λ _. true) r n p run in
              omega (
                arith,
                w.called,
                ap (total (to_report r)) idle,
                ap (λ k. count_if r (numbers k)) all,
              ),
        )
