-- ===== src/Pipeline/Batches/Weights.antt =====
-- Weights of what the goroutines of stage2 have left to do.
use rain_scanner.Base.{ℕ, ◌+◌, ◌≡◌, List, [], ◌∷◌, ◌++◌, arith}
use rain_scanner.Pipeline.Batches.{Action, Stage}

-- The sum of a weight over what a goroutine, or every goroutine, has left to do.
unfoldable pub weigh : (Action → ℕ) → List Action → ℕ
weigh w [] = 0
weigh w (a ∷ acts) = w a + weigh w acts

unfoldable pub weigh_all : (Action → ℕ) → List (List Action) → ℕ
weigh_all w [] = 0
weigh_all w (acts ∷ workers) = weigh w acts + weigh_all w workers

pub weigh-append :
    (w : Action → ℕ) (xs ys : List Action) → weigh w (xs ++ ys) ≡ weigh w xs + weigh w ys
unfolding weigh
weigh-append w [] ys = omega arith
weigh-append w (x ∷ xs) ys = omega (arith, weigh-append w xs ys)

pub weigh_all-middle :
    (w : Action → ℕ) (before behind : List (List Action)) (acts : List Action)
    → weigh_all w (before ++ acts ∷ behind)
      ≡ weigh w acts + (weigh_all w before + weigh_all w behind)
unfolding weigh_all
weigh_all-middle w [] behind acts = omega arith
weigh_all-middle w (b ∷ before) behind acts = omega (arith, weigh_all-middle w before behind acts)

pub weigh_all-append :
    (w : Action → ℕ) (before behind : List (List Action))
    → weigh_all w (before ++ behind) ≡ weigh_all w before + weigh_all w behind
unfolding weigh_all
weigh_all-append w [] behind = omega arith
weigh_all-append w (b ∷ before) behind = omega (arith, weigh_all-append w before behind)

-- A goroutine that goes from `old` to `new`.
pub weigh_all-moved :
    (w : Action → ℕ) (p : Stage) (before behind : List (List Action)) (old new : List Action)
    → p.workers ≡ before ++ old ∷ behind
    → weigh_all w (before ++ new ∷ behind) + weigh w old ≡ weigh_all w p.workers + weigh w new
weigh_all-moved w p before behind old new at =
    rw at
      (omega (arith, weigh_all-middle w before behind old, weigh_all-middle w before behind new))

-- One that ends.
pub weigh_all-ended :
    (w : Action → ℕ) (p : Stage) (before behind : List (List Action))
    → p.workers ≡ before ++ [] ∷ behind
    → weigh_all w (before ++ behind) ≡ weigh_all w p.workers
unfolding weigh
weigh_all-ended w p before behind at =
    rw at (omega (arith, weigh_all-append w before behind, weigh_all-middle w before behind []))
