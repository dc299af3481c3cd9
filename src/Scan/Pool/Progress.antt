-- ===== src/Scan/Pool/Progress.antt =====
-- The sweep ends: every step uses up some of what is left to do, and until the end there is a step to take.
use rain_scanner.Base.{
  ℕ, zero, suc, ◌+◌, ◌*◌, ◌≡◌, ◌≤◌, ◌<◌, ◌⊎◌, inl, inr, refl, ap, ◌∙◌, Bool, true, false, List, [],
  ◌∷◌, arith, length, length-append, Bool-cases, ltb, ltb→lt, ltb→ge,
}
use rain_scanner.IpRange.Addr.{Addr}
use rain_scanner.Scan.Pool.{
  Worker, dialing, sending, counting, reporting, releasing, finishing, Shared, Phase, launching,
  draining, closed, Pool, start, Move, connects, fails, sends, gives_up, counts, reports, releases,
  finishes, Step, launches, stops, ends, closes, works, receives, cancels, Run, here, next, buffer,
}
use rain_scanner.Scan.Pool.Invariant.{Run-IsSound}
use rain_scanner.Scan.Pool.Weights.{total, total-append, total_around, holds}

-- The steps that are left at most, for each part of the state.
abbrev pub effort : Worker → ℕ
effort (dialing a) = 8
effort (sending a) = 7
effort (counting a) = 5
effort (reporting d) = 4
effort releasing = 3
effort finishing = 1

abbrev pub phase_effort : Phase → ℕ
phase_effort launching = 2
phase_effort draining = 1
phase_effort closed = 0

abbrev pub flag_effort : Bool → ℕ
flag_effort true = 0
flag_effort false = 1

abbrev pub left_to_do : Pool → ℕ
left_to_do p =
    9 * length p.left
    + total effort p.workers
    + length p.shared.queue
    + phase_effort p.phase
    + flag_effort p.shared.cancelled

List-cases {ℓ} : {A : Type ℓ} (xs : List A) → (xs ≡ []) ⊎ ((x : A) × (t : List A) × (xs ≡ x ∷ t))
List-cases [] = inl refl
List-cases (x ∷ t) = inr (x, t, refl)

phase_cases : (f : Phase) → (f ≡ launching) ⊎ ((f ≡ draining) ⊎ (f ≡ closed))
phase_cases launching = inl refl
phase_cases draining = inr (inl refl)
phase_cases closed = inr (inr refl)

module _ (reachable : Addr → Bool) where
  Move-effort :
      {s s' : Shared} {w : Worker} {w' : List Worker}
      → Move reachable s w s' w'
      → (s'.cancelled ≡ s.cancelled)
        × (length s'.queue + total effort w' < length s.queue + effort w)
  Move-effort (connects s a e) = (refl, omega arith)
  Move-effort (fails s a e) = (refl, omega arith)
  Move-effort (sends s a room) = (refl, omega (arith, length-append s.queue (a ∷ [])))
  Move-effort (gives_up s a e) = (refl, omega arith)
  Move-effort (counts s a) = (refl, omega arith)
  Move-effort (reports s d) = (refl, omega arith)
  Move-effort (releases s) = (refl, omega arith)
  Move-effort (finishes s) = (refl, omega arith)

  module _ (capacity : ℕ) where
    Step-effort : {a b : Pool} → Step reachable capacity a b → left_to_do b < left_to_do a
    Step-effort (launches p h t e l room) = omega (arith, ap length l, ap phase_effort e)
    Step-effort (stops p h t e l c) = omega (arith, ap phase_effort e)
    Step-effort (ends p e l) = omega (arith, ap phase_effort e)
    Step-effort (closes p e l) = omega (arith, ap phase_effort e)
    Step-effort (works p before w behind w' s e m) =
        let (flag, less) = Move-effort m in
        omega (
          arith,
          less,
          ap flag_effort flag,
          ap (total effort) e ∙ total-append effort before (w ∷ behind),
          total_around effort before w' behind,
        )
    Step-effort (receives p a rest e) = omega (arith, ap length e)
    Step-effort (cancels p c) = omega (arith, ap flag_effort c)

    -- The steps so far and those that are left.
    Run-length-le :
        (hosts : List Addr) (n : ℕ) (p : Pool)
        → Run reachable capacity (start hosts) n p
        → n + left_to_do p ≤ 9 * length hosts + 3
    unfolding start
    Run-length-le hosts zero _ here = omega arith
    Run-length-le hosts (suc n) _ (next _ a b run step) =
        omega (arith, Step-effort step, Run-length-le hosts n a run)

  -- A goroutine that may go on, when the channel has room.
  next-Move :
      (s : Shared) (w : Worker)
      → length s.queue < buffer
      → (s' : Shared) × (w' : List Worker) × Move reachable s w s' w'
  next-Move s (dialing a) room = elim (Bool-cases (reachable a)) [
    | inl e ↦ (_, _, connects s a e)
    | inr e ↦ (_, _, fails s a (inl e))
  ]
  next-Move s (sending a) room = (_, _, sends s a room)
  next-Move s (counting a) room = (_, _, counts s a)
  next-Move s (reporting d) room = (_, _, reports s d)
  next-Move s releasing room = (_, _, releases s)
  next-Move s finishing room = (_, _, finishes s)

  module _ (capacity : ℕ) (some_place : 0 < capacity) (hosts : List Addr) where
    -- A step that is no cancellation.
    Next : Pool → Type 0
    Next p = (p' : Pool) × Step reachable capacity p p' × (p'.shared.cancelled ≡ p.shared.cancelled)

    move_on :
        (p : Pool) (w : Worker) (ws : List Worker)
        → p.shared.queue ≡ []
        → p.workers ≡ w ∷ ws
        → Next p
    unfolding Next
    move_on p w ws empty e =
        let (s, w', m) = next-Move p.shared w (omega (arith, ap length empty)) in
        (_, works p [] w ws w' s e m, (Move-effort m).0)

    launch :
        (p : Pool)
        → p.shared.queue ≡ []
        → p.phase ≡ launching
        → p.shared.sem ≡ total holds p.workers
        → Next p
    unfolding Next
    launch p empty e held = elim (List-cases p.left) [
      | inl none_left ↦ (_, ends p e none_left, refl)
      | inr (h, t, l) ↦ elim (Bool-cases (ltb p.shared.sem capacity)) [
        | inl room ↦ (_, launches p h t e l (ltb→lt p.shared.sem capacity room), refl)
        | inr full ↦ elim (List-cases p.workers) [
          | inl idle ↦
              absurd (omega (arith, ltb→ge p.shared.sem capacity full, ap (total holds) idle))
          | inr (w, ws, busy) ↦ move_on p w ws empty busy
        ]
      ]
    ]

    -- The sweep is never stuck.
    Run-next :
        (n : ℕ) (p : Pool)
        → Run reachable capacity (start hosts) n p
        → ((p.phase ≡ closed) × (p.shared.queue ≡ []))
          ⊎ ((p' : Pool) × Step reachable capacity p p'
              × (p'.shared.cancelled ≡ p.shared.cancelled))
    unfolding Next
    Run-next n p run =
        let v = Run-IsSound reachable capacity hosts (λ _. true) (λ _. true) n p run in
        elim (List-cases p.shared.queue) [
          | inr (a, q, e) ↦ inr (_, receives p a q e, refl)
          | inl empty ↦ elim (phase_cases p.phase) [
            | inl e ↦ inr (launch p empty e v.held)
            | inr (inl e) ↦ elim (List-cases p.workers) [
              | inl idle ↦ inr (_, closes p e idle, refl)
              | inr (w, ws, busy) ↦ inr (move_on p w ws empty busy)
            ]
            | inr (inr e) ↦ inl (e, empty)
          ]
        ]

    -- Every run of the sweep, whatever its interleaving, comes to its end if the semaphore has a place at all: a run has at
    -- most nine steps for each host and three more, and in every state that it reaches, the sweep is over, with its
    -- channel closed and everything received, or there is a step to take that is no cancellation.
    pub Run-ends :
        (n : ℕ) (p : Pool)
        → Run reachable capacity (start hosts) n p
        → (n + left_to_do p ≤ 9 * length hosts + 3)
          × (((p.phase ≡ closed) × (p.shared.queue ≡ []))
              ⊎ ((p' : Pool) × Step reachable capacity p p'
                  × (p'.shared.cancelled ≡ p.shared.cancelled)))
    Run-ends n p run = (Run-length-le capacity hosts n p run, Run-next n p run)
