-- ===== src/Profiles/Eviction/Scale.antt =====
-- computeScaledEvictionLimit in int32 arithmetic: exact and monotonic up to 536870921.
use virt_advisor_operator.Base.{ℕ, ◌+◌, ◌-◌, ◌*◌, ◌/◌, ◌≤◌, ◌≡◌, refl, arith, ltb, if◌then◌else◌}
use virt_advisor_operator.Base.Int.{ℤ, pos, negsuc, ◌≤ℤ◌}
use virt_advisor_operator.Profiles.Eviction.{compute_scaled_eviction_limit}

-- The rule of the comment: the value itself below 10, then four fifths of what is above 10.
abbrev scaled : ℕ → ℕ
scaled n = if ltb n 10 then n else 10 + (n - 10) * 4 / 5

compute-scaled : (n : ℕ) → n ≤ 536870921 → compute_scaled_eviction_limit (pos n) ≡ pos (scaled n)
unfolding compute_scaled_eviction_limit
compute-scaled n h = ground arith

compute-negative : (n : ℕ) → compute_scaled_eviction_limit (negsuc n) ≡ negsuc n
unfolding compute_scaled_eviction_limit
compute-negative n = ground arith

-- The rule on all numbers; a negative one is below 10.
abbrev pub exact : ℤ → ℤ
exact (pos n) = pos (scaled n)
exact (negsuc n) = negsuc n

compute-exact : (b : ℤ) → b ≤ℤ pos 536870921 → compute_scaled_eviction_limit b ≡ exact b
compute-exact (pos b) k = compute-scaled b (omega arith)
compute-exact (negsuc b) k = compute-negative b

bounded :
    (a b : ℤ)
    → a ≤ℤ b
    → b ≤ℤ pos 536870921
    → (compute_scaled_eviction_limit a ≤ℤ compute_scaled_eviction_limit b)
      × (compute_scaled_eviction_limit b ≤ℤ b)
bounded (pos a) (pos b) h k =
    rw (compute-scaled a (omega arith), compute-scaled b (omega arith)) (ground arith)
bounded (negsuc a) (pos b) h k =
    rw (compute-negative a, compute-scaled b (omega arith)) (ground arith)
bounded (pos a) (negsuc b) h k = absurd (omega arith)
bounded (negsuc a) (negsuc b) h k = rw (compute-negative a, compute-negative b) (ground arith)

-- Up to 536870921 the limit is the one of exact arithmetic: the value itself below 10, and else 10 and
-- four fifths, rounded down, of what is above 10. It grows with the value, and is at most the value.
pub compute_scaled_eviction_limit-monotonic :
    (a b : ℤ)
    → a ≤ℤ b
    → b ≤ℤ pos 536870921
    → (compute_scaled_eviction_limit b ≡ exact b)
      × (compute_scaled_eviction_limit a ≤ℤ compute_scaled_eviction_limit b)
      × (compute_scaled_eviction_limit b ≤ℤ b)
compute_scaled_eviction_limit-monotonic a b h k =
    let r = bounded a b h k in (compute-exact b k, r.0, r.1)

-- One above the bound, the multiplication wraps around.
overflows : compute_scaled_eviction_limit (pos 536870922) ≡ negsuc 429496718
unfolding compute_scaled_eviction_limit
overflows = refl
