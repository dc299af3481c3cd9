-- ===== src/Pipeline/Chunks.antt =====
-- chunkEndpoints cuts a list into pieces that make it up again.
use rain_scanner.Base.{
  ℕ, zero, suc, ◌≡◌, ◌≤◌, refl, ap, ◌∙◌, List, [], ◌∷◌, ◌++◌, if◌then◌else◌, length, take, drop,
  take-append-drop, length-take, length-drop, All, arith, ℤ, is_pos, pos_part,
}
use rain_scanner.Pipeline.{Endpoint, chunks, chunk_endpoints, default_batch_size}

abbrev pub concat : List (List Endpoint) → List Endpoint
concat [] = []
concat (b ∷ bs) = b ++ concat bs

-- The number of endpoints that a batch may have.
abbrev pub batch_size : ℤ → ℕ
batch_size size = if is_pos size then pos_part size else default_batch_size

batch_size-low : (size : ℤ) → 1 ≤ batch_size size
batch_size-low size = ground arith

abbrev IsBatch : ℕ → List Endpoint → Type 0
IsBatch size b = (1 ≤ length b) × (length b ≤ size)

concat-chunks :
    (fuel size : ℕ) (eps : List Endpoint)
    → length eps ≤ fuel
    → 1 ≤ size
    → concat (chunks fuel size eps) ≡ eps
unfolding chunks
concat-chunks zero size [] h s = refl
concat-chunks zero size (e ∷ eps) h s = absurd (omega (arith, h))
concat-chunks (suc fuel) size [] h s = refl
concat-chunks (suc fuel) size (e ∷ eps) h s =
    ap (λ l. take size (e ∷ eps) ++ l)
      (concat-chunks fuel size (drop size (e ∷ eps))
        (omega (arith, length-drop size (e ∷ eps), h, s)) s)
    ∙ take-append-drop size (e ∷ eps)

chunks-IsBatch :
    (fuel size : ℕ) (eps : List Endpoint) → 1 ≤ size → All (IsBatch size) (chunks fuel size eps)
unfolding chunks
chunks-IsBatch zero size eps s = tt
chunks-IsBatch (suc fuel) size [] s = tt
chunks-IsBatch (suc fuel) size (e ∷ eps) s = (
  (omega (arith, length-take size (e ∷ eps), s), omega (arith, length-take size (e ∷ eps))),
  chunks-IsBatch fuel size (drop size (e ∷ eps)) s,
)

-- The batches of chunkEndpoints are the endpoints, in order and none twice, and every batch has at least one endpoint and
-- at most the batch size, which is the default if the configured one is not positive.
pub chunk_endpoints_lem :
    (eps : List Endpoint) (size : ℤ)
    → (concat (chunk_endpoints eps size) ≡ eps)
      × All (λ b. (1 ≤ length b) × (length b ≤ batch_size size)) (chunk_endpoints eps size)
unfolding chunk_endpoints
chunk_endpoints_lem eps size = (
  concat-chunks (length eps) (batch_size size) eps (omega arith) (batch_size-low size),
  chunks-IsBatch (length eps) (batch_size size) eps (batch_size-low size),
)
