-- ===== src/Server/Metrics/Consistent.antt =====
-- The counts of batches in metrics/types.rs agree with the count of responses.
use roughenough.Prelude.{
  ℕ, zero, suc, ◌+◌, ◌-◌, ◌*◌, ◌≤◌, ◌<◌, ◌≡◌, refl, ap, sym, ◌∙◌, List, [], ◌∷◌, length, arith,
  replicate, lt→ltb, le→leb, length-replicate,
}
use roughenough.Protocol.Error.{bind_ok, ok, index}
use roughenough.Server.Metrics.{
  ResponseMetrics, default_response_metrics, add_u8, add_at, add_batch_size, add_counts,
  add_response_metrics,
}

-- The number of responses in batches whose sizes are `size`, `size + 1`, … with these counts.
unfoldable pub responses_in : ℕ → List ℕ → ℕ
responses_in size [] = 0
responses_in size (count ∷ counts) = count * size + responses_in (size + 1) counts

-- A count for each size, and the number of responses that the counts stand for.
pub record IsConsistent (m : ResponseMetrics) : Type 0 where
  pub sizes : length m.batch_sizes ≡ 64
  pub counted : m.num_responses ≡ responses_in 1 m.batch_sizes

add_at-ok :
    (counts : List ℕ) (i size count : ℕ)
    → index counts i ≡ ok count
    → count < 255
    → (counts' : List ℕ) × (add_at counts i 1 ≡ ok counts')
      × (length counts' ≡ length counts)
      × (responses_in size counts' ≡ responses_in size counts + (size + i))
unfolding add_at add_u8 responses_in
add_at-ok [] i size count h small = cc
add_at-ok (c ∷ counts) zero size count h small =
    let same : c ≡ count = cc in
    ((c + 1) ∷ counts, rw (lt→ltb (c + 1) 256 (omega (arith, small, same))), refl, grind arith)
add_at-ok (c ∷ counts) (suc i) size count h small =
    let (counts', run, len, total) = add_at-ok counts i (size + 1) count h small in
    (c ∷ counts', bind_ok (add_at counts i 1) _ counts' run, ap suc len, omega (arith, total))

-- A batch of 1 to 64 responses is counted as long as fewer than 255 of its size are: the number of responses grows by the
-- size of the batch, and the metrics stay consistent: the counts of batches by size stand for as many responses as are
-- counted.
pub add_batch_size-IsConsistent :
    (batch_size count : ℕ) (m : ResponseMetrics)
    → IsConsistent m
    → 1 ≤ batch_size
    → batch_size ≤ 64
    → index m.batch_sizes (batch_size - 1) ≡ ok count
    → count < 255
    → (m' : ResponseMetrics) × (add_batch_size batch_size m ≡ ok m')
      × IsConsistent m'
      × (m'.num_responses ≡ m.num_responses + batch_size)
unfolding add_batch_size
add_batch_size-IsConsistent batch_size count m c low high h small =
    let (counts', run, len, total) = add_at-ok m.batch_sizes (batch_size - 1) 1 count h small in
    (
      record m { num_responses = m.num_responses + batch_size; batch_sizes = counts' },
      rw (lt→ltb 0 batch_size (omega arith), le→leb batch_size 64 high)
          (bind_ok (add_at m.batch_sizes (batch_size - 1) 1) _ counts' run),
      record { sizes = len ∙ c.sizes; counted = omega (arith, total, c.counted, low) },
      refl,
    )

-- Counts of two lists whose sums are bytes.
abbrev pub Fit : List ℕ → List ℕ → Type 0
Fit [] ys = Unit
Fit (x ∷ xs) [] = Unit
Fit (x ∷ xs) (y ∷ ys) = (x + y < 256) × Fit xs ys

add_counts-ok :
    (counts ns : List ℕ) (size : ℕ)
    → length counts ≡ length ns
    → Fit counts ns
    → (sums : List ℕ) × (add_counts counts ns ≡ ok sums)
      × (length sums ≡ length counts)
      × (responses_in size sums ≡ responses_in size counts + responses_in size ns)
unfolding add_counts add_u8 responses_in
add_counts-ok [] [] size same fit = ([], refl, refl, refl)
add_counts-ok [] (n ∷ ns) size same fit = absurd (omega arith)
add_counts-ok (c ∷ counts) [] size same fit = absurd (omega arith)
add_counts-ok (c ∷ counts) (n ∷ ns) size same (small, fit) =
    let (sums, run, len, total) = add_counts-ok counts ns (size + 1) (omega (arith, same)) fit in
    (
      (c + n) ∷ sums,
      rw (lt→ltb (c + n) 256 small) (bind_ok (add_counts counts ns) _ sums run),
      ap suc len,
      grind (arith, total),
    )

-- Consistent metrics of two workers, or of two periods, of which no count of batches of one size passes 255 together, are
-- added without a panic, and the sum is consistent.
pub add_response_metrics-IsConsistent :
    (m rhs : ResponseMetrics)
    → IsConsistent m
    → IsConsistent rhs
    → Fit m.batch_sizes rhs.batch_sizes
    → (sum : ResponseMetrics) × (add_response_metrics m rhs ≡ ok sum)
      × IsConsistent sum
      × (sum.num_responses ≡ m.num_responses + rhs.num_responses)
      × (sum.num_bytes_sent ≡ m.num_bytes_sent + rhs.num_bytes_sent)
unfolding add_response_metrics
add_response_metrics-IsConsistent m rhs c c' fit =
    let (sums, run, len, total) =
      add_counts-ok m.batch_sizes rhs.batch_sizes 1 (omega (arith, c.sizes, c'.sizes)) fit in
    (
      record {
        num_responses = m.num_responses + rhs.num_responses;
        num_bytes_sent = m.num_bytes_sent + rhs.num_bytes_sent;
        batch_sizes = sums;
      },
      bind_ok (add_counts m.batch_sizes rhs.batch_sizes) _ sums run,
      record { sizes = len ∙ c.sizes; counted = omega (arith, total, c.counted, c'.counted) },
      refl,
      refl,
    )

responses_in_none : (n size : ℕ) → responses_in size (replicate n 0) ≡ 0
unfolding responses_in
responses_in_none zero size = refl
responses_in_none (suc n) size = omega (arith, responses_in_none n (size + 1))

pub default-IsConsistent : IsConsistent default_response_metrics
unfolding default_response_metrics
default-IsConsistent = record {
  sizes = length-replicate {A = ℕ} 64 0;
  counted = sym (responses_in_none 64 1);
}
