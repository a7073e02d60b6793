-- ===== src/Sync/Retry.antt =====
-- services/sync/retry/backoff.py. A delay is in milliseconds; the draw of `random.randint(0, jitter)`
-- is an argument.
use native.Mathlib.Nat.{pow-le-pow_right, mul-le-mul_left, one-le-pow}
use ai_powered_respiratory_h.Base.{
  ℕ, ◌+◌, ◌*◌, ◌^◌, ◌≤◌, Bool, ◌||◌, ◌≡◌, arith, leb, nat_beq, if◌then◌else◌, ap, ◌∙◌, sym, refl, ℤ,
  pos, negsuc, Bool-cases, inl, inr,
}

pub record RetryPolicy : Type 0 where
  pub base_delay_ms : ℕ
  pub max_delay_ms : ℕ
  pub max_attempts : ℕ
  pub jitter_ms : ℕ

-- The arguments' defaults.
abbrev pub default_policy : RetryPolicy
default_policy = record {
  base_delay_ms = 1000;
  max_delay_ms = 30000;
  max_attempts = 5;
  jitter_ms = 500;
}

abbrev pub is_retryable : ℕ → Bool
is_retryable code =
    nat_beq code 408
    || nat_beq code 429
    || nat_beq code 500
    || nat_beq code 502
    || nat_beq code 503
    || nat_beq code 504

abbrev pub at_most : ℕ → ℕ → ℕ
at_most bound n = if leb bound n then bound else n

-- `max(0, min(attempt, 10))`
abbrev pub clamped_attempt : ℤ → ℕ
clamped_attempt (pos n) = at_most 10 n
clamped_attempt (negsuc n) = 0

unfoldable pub compute_delay_ms : RetryPolicy → (attempt : ℤ) (draw : ℕ) → ℕ
compute_delay_ms p attempt draw =
    at_most p.max_delay_ms (p.base_delay_ms * 2 ^ clamped_attempt attempt) + draw

abbrev pub has_exceeded_max_attempts : RetryPolicy → ℕ → Bool
has_exceeded_max_attempts p attempt = leb p.max_attempts attempt

-- The delay that the protocol documents, without the draw.
abbrev pub documented_delay_ms : RetryPolicy → ℕ → ℕ
documented_delay_ms p attempt = at_most p.max_delay_ms (p.base_delay_ms * 2 ^ attempt)

-- The order of attempts.
abbrev pub IsEarlier : ℤ → ℤ → Type 0
IsEarlier (pos m) (pos n) = m ≤ n
IsEarlier (pos m) (negsuc n) = ⊥
IsEarlier (negsuc m) (pos n) = Unit
IsEarlier (negsuc m) (negsuc n) = n ≤ m

at_most_le : (bound m n : ℕ) → m ≤ n → at_most bound m ≤ at_most bound n
at_most_le bound m n h = ground arith

at_most_bound : (bound n : ℕ) → at_most bound n ≤ bound
at_most_bound bound n = ground arith

grows : (b m n : ℕ) → m ≤ n → b * 2 ^ m ≤ b * 2 ^ n
grows b m n h = mul-le-mul_left b (pow-le-pow_right (omega arith) h)

at_least : (b n : ℕ) → b ≤ b * 2 ^ n
at_least b n = omega (arith, mul-le-mul_left b (one-le-pow n 2 (omega arith)))

clamped_le : (a b : ℤ) → IsEarlier a b → clamped_attempt a ≤ clamped_attempt b
clamped_le (pos m) (pos n) h = at_most_le 10 m n h
clamped_le (pos m) (negsuc n) h = absurd h
clamped_le (negsuc m) (pos n) h = omega arith
clamped_le (negsuc m) (negsuc n) h = omega arith

-- Whatever is drawn within the policy's jitter, for any two attempts in order, negative ones included:
-- a delay is at most the maximal delay and the jitter, and at least the smaller of the maximal and the
-- base delay; and with the same draw the later attempt does not wait less.
pub compute_delay_ms_bounds :
    (p : RetryPolicy) (attempt later : ℤ) (draw : ℕ)
    → draw ≤ p.jitter_ms
    → IsEarlier attempt later
    → (compute_delay_ms p attempt draw ≤ p.max_delay_ms + p.jitter_ms)
      × (at_most p.max_delay_ms p.base_delay_ms ≤ compute_delay_ms p attempt draw)
      × (compute_delay_ms p attempt draw ≤ compute_delay_ms p later draw)
unfolding compute_delay_ms
compute_delay_ms_bounds p attempt later draw within h =
    let n = clamped_attempt attempt in
    let capped = at_most_bound p.max_delay_ms (p.base_delay_ms * 2 ^ n) in
    let base =
      at_most_le p.max_delay_ms p.base_delay_ms (p.base_delay_ms * 2 ^ n)
        (at_least p.base_delay_ms n) in
    let more =
      at_most_le p.max_delay_ms _ _
        (grows p.base_delay_ms n (clamped_attempt later) (clamped_le attempt later h)) in
    (omega (arith, capped, within), omega (arith, base), omega (arith, more))

at_most_over : (bound n : ℕ) → bound ≤ n → at_most bound n ≡ bound
at_most_over bound n h = ground arith

at_most_under : (bound n : ℕ) → n ≤ bound → at_most bound n ≡ n
at_most_under bound n h = ground arith

-- A delay is the documented one and the draw for every attempt up to the tenth; for every later one
-- too, if the tenth already waits the maximal delay; otherwise a later one waits as the tenth does. A
-- negative attempt waits as the attempt 0 does.
pub compute_delay_ms_documented :
    (p : RetryPolicy) (attempt draw : ℕ)
    → (attempt ≤ 10 → compute_delay_ms p (pos attempt) draw ≡ documented_delay_ms p attempt + draw)
      × (p.max_delay_ms ≤ p.base_delay_ms * 2 ^ 10
          → compute_delay_ms p (pos attempt) draw ≡ documented_delay_ms p attempt + draw)
      × (10 ≤ attempt → compute_delay_ms p (pos attempt) draw ≡ documented_delay_ms p 10 + draw)
      × (compute_delay_ms p (negsuc attempt) draw ≡ documented_delay_ms p 0 + draw)
unfolding compute_delay_ms
compute_delay_ms_documented p attempt draw =
    let small =
      λ (h : attempt ≤ 10). ap (λ k. documented_delay_ms p k + draw) (at_most_under 10 attempt h) in
    let large =
      λ (h : 10 ≤ attempt). ap (λ k. documented_delay_ms p k + draw) (at_most_over 10 attempt h) in
    (
      small,
      λ enough. elim (Bool-cases (leb attempt 10)) [
        | inl low ↦ small (ground arith)
        | inr high ↦
            let more = grows p.base_delay_ms 10 attempt (ground arith) in
            large (ground arith)
            ∙ ap (λ d. d + draw)
                (at_most_over p.max_delay_ms _ enough
                  ∙ sym (at_most_over p.max_delay_ms _ (omega (arith, enough, more))))
      ],
      large,
      refl,
    )
