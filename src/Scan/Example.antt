-- ===== src/Scan/Example.antt =====
-- A sweep of one host, step by step, for the witnesses.
use rain_scanner.Base.{ℕ, suc, refl, Bool, true, List, [], ◌∷◌, arith}
use rain_scanner.IpRange.Addr.{Addr, v4}
use rain_scanner.Scan.Pool.{
  Pool, start, connects, sends, counts, reports, releases, finishes, Step, launches, ends, closes,
  works, receives, Run, here, next,
}

abbrev pub accepts_all : Addr → Bool
accepts_all a = true

abbrev pub one_host : List Addr
one_host = v4 134744072 ∷ []

-- A run so far.
pub record Ran (n : ℕ) : Type 0 where
  pub last : Pool
  pub run : Run accepts_all 2 (start one_host) n last

abbrev pub extend : {n : ℕ} (r : Ran n) {b : Pool} → Step accepts_all 2 r.last b → Ran (suc n)
extend {n} r {b} s = record { last = b; run = next n r.last b r.run s }

unfoldable pub launched : Ran 1
unfolding start
launched =
    extend (record { last = start one_host; run = here })
      (launches _ (v4 134744072) [] refl refl (omega arith))

unfoldable pub counted : Ran 5
unfolding start launched
counted =
    extend
      (extend
        (extend (extend launched (works _ [] _ [] _ _ refl (connects _ _ refl)))
          (works _ [] _ [] _ _ refl (sends _ _ (omega arith))))
        (receives _ _ _ refl))
      (works _ [] _ [] _ _ refl (counts _ _))

unfoldable pub finished : Ran 10
unfolding start launched counted
finished =
    extend
      (extend
        (extend
          (extend (extend counted (works _ [] _ [] _ _ refl (reports _ _)))
            (works _ [] _ [] _ _ refl (releases _)))
          (works _ [] _ [] _ _ refl (finishes _)))
        (ends _ refl refl))
      (closes _ refl refl)
