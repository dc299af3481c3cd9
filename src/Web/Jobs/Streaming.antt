-- ===== src/Web/Jobs/Streaming.antt =====
-- What a stream sends, in every interleaving of pushes with the handler.
use rain_scanner.Base.{
  ℕ, zero, suc, ◌≡◌, ◌≢◌, ◌≤◌, ◌<◌, refl, sym, ap, ◌∙◌, true, false, List, [], ◌∷◌, ◌++◌,
  append-nil, ltb, length, length-append, length-drop, take, drop, take-append-drop, arith,
  Bool-cases, inl, inr,
}
use rain_scanner.Web.Jobs.{
  Event, Job, Stream, push, finish, after, send, Phase, reading, checked, waiting, returned, Step,
  Steps, pushes, finishes, reads, waits, wakes, leaves, disconnected, here, then_step, done_event,
}

take-append : (n : ℕ) (xs ys : List Event) → n ≤ length xs → take n (xs ++ ys) ≡ take n xs
take-append zero xs ys h = refl
take-append (suc n) [] ys h = absurd (omega (arith, h))
take-append (suc n) (x ∷ xs) ys h = ap (λ l. x ∷ l) (take-append n xs ys (omega (arith, h)))

take_all : (xs : List Event) → take (length xs) xs ≡ xs
take_all [] = refl
take_all (x ∷ xs) = ap (λ l. x ∷ l) (take_all xs)

-- The handler has sent the first `idx` events, in order; and one that returned has sent them all, of a job that is
-- finished.
pub record IsFaithful (a : Job × Stream) : Type 0 where
  pub sent_prefix : (a.1).sent ≡ take (a.1).idx (a.0).events
  pub in_range : (a.1).idx ≤ length (a.0).events
  pub complete : (a.1).phase ≡ returned → ((a.0).done ≡ true) × ((a.1).sent ≡ (a.0).events)

grow-IsFaithful :
    (j : Job) (s : Stream) (e : Event) (j' : Job)
    → j'.events ≡ j.events ++ e ∷ []
    → j.done ≡ false
    → IsFaithful (j, s)
    → IsFaithful (j', s)
grow-IsFaithful j s e j' more running h = record {
  sent_prefix =
      h.sent_prefix
      ∙ sym (take-append s.idx j.events (e ∷ []) h.in_range)
      ∙ ap (take s.idx) (sym more);
  in_range = omega (arith, h.in_range, ap length more, length-append j.events (e ∷ []));
  complete = λ r. let (finished, _) = h.complete r in cc;
}

-- After a turn the handler has sent every event that is there.
send_all :
    (j : Job) (s : Stream)
    → IsFaithful (j, s)
    → ((send j s).sent ≡ j.events) × ((send j s).idx ≡ length j.events)
unfolding send after
send_all j s h = elim (Bool-cases (ltb s.idx (length j.events))) [
  | inl some_left ↦ rw some_left (
    ap (λ l. l ++ drop s.idx j.events) h.sent_prefix ∙ take-append-drop s.idx j.events,
    omega (arith, length-drop s.idx j.events, h.in_range),
  )
  | inr none_left ↦
      let all : s.idx ≡ length j.events = ground (arith, h.in_range) in
      rw none_left (
        append-nil s.sent ∙ h.sent_prefix ∙ ap (λ n. take n j.events) all ∙ take_all j.events,
        omega (arith, all),
      )
]

send-done : (j : Job) (s : Stream) → (send j s).phase ≡ returned → j.done ≡ true
unfolding send after
send-done j s h = ground arith

send-IsFaithful : (j : Job) (s : Stream) → IsFaithful (j, s) → IsFaithful (j, send j s)
send-IsFaithful j s h =
    let (all, count) = send_all j s h in
    record {
      sent_prefix = all ∙ sym (take_all j.events) ∙ ap (λ n. take n j.events) (sym count);
      in_range = omega (arith, count);
      complete = λ r. (send-done j s r, all);
    }

-- A change of phase to one that is not the last.
move-IsFaithful :
    (j : Job) (s : Stream) (p : Phase)
    → p ≢ returned
    → IsFaithful (j, s)
    → IsFaithful (j, record s { phase = p })
move-IsFaithful j s p going h = record {
  sent_prefix = h.sent_prefix;
  in_range = h.in_range;
  complete = λ r. absurd (going r);
}

Step-IsFaithful : (a b : Job × Stream) → Step a b → IsFaithful a → IsFaithful b
unfolding push finish
Step-IsFaithful a b (pushes e j s running) h = grow-IsFaithful j s e (push e j) refl running h
Step-IsFaithful a b (finishes j s running) h =
    grow-IsFaithful j s done_event (finish j) refl running h
Step-IsFaithful a b (reads j s p) h = send-IsFaithful j s h
Step-IsFaithful a b (waits j s p) h = move-IsFaithful j s (waiting j.generation) (λ e. cc) h
Step-IsFaithful a b (wakes j s g p changed) h = move-IsFaithful j s reading (λ e. cc) h
Step-IsFaithful a b (leaves j s g p) h = move-IsFaithful j s disconnected (λ e. cc) h

-- In every interleaving of a job with a handler that streams it, what the handler has sent is a prefix of the job's
-- events: none is lost, doubled or out of order; and when the handler returns, the job is finished and every event
-- was sent.
pub Steps-IsFaithful : (a b : Job × Stream) → Steps a b → IsFaithful a → IsFaithful b
Steps-IsFaithful a b (here c) h = h
Steps-IsFaithful a b (then_step c d e before step) h =
    Step-IsFaithful d e step (Steps-IsFaithful c d before h)

-- A handler that waits for the current channel of a finished job, of which it has not sent everything.
pub record IsStuck (a : Job × Stream) : Type 0 where
  pub finished : (a.0).done ≡ true
  pub asleep : (a.1).phase ≡ waiting (a.0).generation
  pub unsent : (a.1).idx < length (a.0).events

-- Every step from here is that the client goes away.
abbrev pub LastStep : Job × Stream → Type 0
LastStep a = (b : Job × Stream) → Step a b → (b.1).phase ≡ disconnected

-- The only step from a stuck state is that the client goes away: no event is pushed to a finished job, and nothing else
-- wakes the handler.
pub stuck-Step : (a b : Job × Stream) → IsStuck a → Step a b → (b.1).phase ≡ disconnected
stuck-Step a b h (pushes e j s running) = cc (h.finished, running)
stuck-Step a b h (finishes j s running) = cc (h.finished, running)
stuck-Step a b h (reads j s p) = cc (h.asleep, p)
stuck-Step a b h (waits j s p) = cc (h.asleep, p)
stuck-Step a b h (wakes j s g p changed) =
    let same : waiting g ≡ waiting j.generation = sym p ∙ h.asleep in absurd (changed cc)
stuck-Step a b h (leaves j s g p) = refl

-- A wake-up can be lost: from any state where a handler has caught up with a job that is still running and is about
-- to wait, the job's end may come between its `after` and its `wait`, and then the handler waits for a channel that
-- nothing closes any more, with events unsent: the only step left is that the client goes away.
pub lost_wakeup :
    (j : Job) (s : Stream)
    → j.done ≡ false
    → s.phase ≡ checked
    → s.idx ≡ length j.events
    → (b : Job × Stream) × Steps (j, s) b × IsStuck b × LastStep b
unfolding finish
lost_wakeup j s running p caught_up =
    let s' = record s { phase = waiting (finish j).generation } in
    let stuck : IsStuck (finish j, s') = record {
      finished = refl;
      asleep = refl;
      unsent = omega (arith, caught_up, length-append j.events (done_event ∷ []));
    } in
    (
      (finish j, s'),
      then_step (j, s) (finish j, s) (finish j, s')
          (then_step (j, s) (j, s) (finish j, s) (here (j, s)) (finishes j s running))
          (waits (finish j) s p),
      stuck,
      λ c step. stuck-Step (finish j, s') c stuck step,
    )
