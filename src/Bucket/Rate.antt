-- ===== src/Bucket/Rate.antt =====
-- The claim "token-bucket-bounds-burst-and-average-rate" of the laboratory, about Take of
-- labs/primitives/token-bucket/bucket.go called any number of times.
use native.Mathlib.Decide.{dec_lt}
use native.Mathlib.Nat.{mod-le, div-add-mod', le-div_iff_mul-le, mul-le-mul_right}
use works_on_my_whiteboard.Prelude.{
  ℕ, ◌+◌, ◌-◌, ◌*◌, ◌/◌, ◌%◌, ◌≤◌, ◌<◌, min, ◌≡◌, ap, if◌then◌else◌, List, [], ◌∷◌, All, Result, ok,
  err, arith,
}
use works_on_my_whiteboard.Prelude.Int.{pos_part}
use works_on_my_whiteboard.GoTime.{time_limit}
use works_on_my_whiteboard.Bucket.{Bucket, Decision, Config, new, take, spend, full}
use works_on_my_whiteboard.Bucket.Observe.{IsValid, IsTimely, advanced}
use works_on_my_whiteboard.Bucket.Take.{
  outcome, decided, refused, take_timely, take-IsValid, IsWords, new-IsValid, new-eq-ok,
}

-- The tokens that a result hands out.
abbrev pub granted : ℕ → Result Decision → ℕ
granted amount (ok d) = if d.allowed then amount else 0
granted amount (err e) = 0

-- Every clock reading is an instant, and none is after `last`.
abbrev pub Within : ℕ → List (ℕ × ℕ) → Type 0
Within last = All (λ c. (c.0 ≤ last) × (c.0 < time_limit))

-- What one call takes from a bucket and from the time: tokens and nanoseconds are traded at the rate
-- of one token for each refill interval.
pub record Balanced (b b' : Bucket) (out : ℕ) : Type 0 where
  pub budget :
      (b'.available + out) * b.refill_every + b.refill_anchor
      ≤ b.available * b.refill_every + b'.refill_anchor
  pub forward : b.refill_anchor ≤ b'.refill_anchor
  pub same_rate : b'.refill_every ≡ b.refill_every
  pub same_capacity : b'.capacity ≡ b.capacity

pub Balanced-trans :
    (a b c : Bucket) (x y : ℕ) → Balanced a b x → Balanced b c y → Balanced a c (x + y)
Balanced-trans a b c x y f g = omega (
  arith,
  ap (λ (t : ℕ). (c.available + y) * t) f.same_rate,
  ap (λ (t : ℕ). b.available * t) f.same_rate,
)

-- A step that keeps its invariant and the books of one bucket keeps them over any sequence.
module _ {S C : Type 0} (step : S → C → S × ℕ) where
  unfoldable pub total : S → List C → S × ℕ
  total s [] = (s, 0)
  total s (c ∷ cs) = let (s', out) = step s c in let (s'', more) = total s' cs in (s'', out + more)

  pub total-Balanced :
      (bucket : S → Bucket) (Inv : S → Type 0) (Fine : C → Type 0)
      → ((s : S) (c : C)
          → Inv s
          → Fine c
          → Inv (step s c).0 × Balanced (bucket s) (bucket (step s c).0) (step s c).1)
      → (s : S) (cs : List C) → Inv s
      → All Fine cs
      → Inv (total s cs).0 × Balanced (bucket s) (bucket (total s cs).0) (total s cs).1
  unfolding total
  total-Balanced bucket Inv Fine keep s [] i f = (i, omega arith)
  total-Balanced bucket Inv Fine keep s (c ∷ cs) i f =
      let (i', one) = keep s c i f.0 in
      let (i'', rest) = total-Balanced bucket Inv Fine keep (step s c).0 cs i' f.1 in
      (i'', Balanced-trans (bucket s) (bucket (step s c).0) _ _ _ one rest)

-- One call of `Take` with its clock reading and its amount: the bucket after it and the tokens handed
-- out.
abbrev pub take_one : Bucket → ℕ × ℕ → Bucket × ℕ
take_one b (now, amount) = ((take b now amount).0, granted amount (take b now amount).1)

-- A sequence of calls of `Take`.
abbrev pub take_all : Bucket → List (ℕ × ℕ) → Bucket × ℕ
take_all = total take_one

spend-Balanced :
    (b : Bucket) (remainder amount : ℕ)
    → Balanced b (spend b remainder amount).0 (granted amount (ok (spend b remainder amount).1))
unfolding spend
spend-Balanced b remainder amount = ground arith

advanced-Balanced :
    (b : Bucket) (now : ℕ) → IsValid b → IsTimely b now → Balanced b (advanced b now) 0
advanced-Balanced b now v t =
    let e = now - b.refill_anchor in
    let q = e / b.refill_every in
    omega (
      arith,
      div-add-mod' e b.refill_every,
      mod-le e b.refill_every,
      mul-le-mul_right b.refill_every (min_le b.capacity (b.available + q)),
    )
  where
    min_le : (m n : ℕ) → min m n ≤ n
    min_le m n = omega arith

pub take-Balanced :
    (b : Bucket) (now amount : ℕ)
    → IsValid b
    → now < time_limit
    → Balanced b (take b now amount).0 (granted amount (take b now amount).1)
take-Balanced b now amount v i = elim (outcome b now amount v i) [
  | decided t a ↦ rw (take_timely b now amount v t a) (
      omega (
        arith,
        advanced-Balanced b now v t,
        spend-Balanced (advanced b now) ((now - b.refill_anchor) % b.refill_every) amount,
      ))
  | refused e same ↦ rw same (omega arith)
]

pub take-last_observed :
    (b : Bucket) (now amount last : ℕ)
    → IsValid b
    → now < time_limit
    → b.last_observed ≤ last
    → now ≤ last
    → (take b now amount).0.last_observed ≤ last
unfolding spend
take-last_observed b now amount last v i h k = elim (outcome b now amount v i) [
  | decided t a ↦ rw (take_timely b now amount v t a) (ground arith)
  | refused e same ↦ rw same h
]

take_all-Balanced :
    (b : Bucket) (calls : List (ℕ × ℕ)) (last : ℕ)
    → IsValid b
    → b.last_observed ≤ last
    → Within last calls
    → Balanced b (take_all b calls).0 (take_all b calls).1
      × IsValid (take_all b calls).0
      × ((take_all b calls).0.last_observed ≤ last)
take_all-Balanced b calls last v h w =
    let (i, balanced) =
      total-Balanced take_one (λ b'. b') (λ b'. IsValid b' × (b'.last_observed ≤ last))
        (λ c. (c.0 ≤ last) × (c.0 < time_limit))
        (λ b' c i f. (
          (take-IsValid b' c.0 c.1 i.0 f.1, take-last_observed b' c.0 c.1 last i.0 f.1 i.1 f.0),
          take-Balanced b' c.0 c.1 i.0 f.1,
        ))
        b calls (v, h) w in
    (balanced, i.0, i.1)

split_at : (a o : ℕ) → a < o → a + (o - a) ≡ o
split_at a o h = omega arith

-- Balanced books bound the tokens that went out.
pub Balanced-bound :
    (b b' : Bucket) (out last : ℕ)
    → Balanced b b' out
    → 0 < b.refill_every
    → b'.refill_anchor ≤ last
    → out ≤ b.available + (last - b.refill_anchor) / b.refill_every
Balanced-bound b b' out last balanced p h = elim (dec_lt b.available out) [
  | no few ↦ omega arith
  | yes many ↦
      let over = out - b.available in
      let product : over * b.refill_every ≤ last - b.refill_anchor =
        omega
          (arith, ap (λ (t : ℕ). t * b.refill_every) (split_at b.available out (omega arith))) in
      omega (
        arith,
        (le-div_iff_mul-le {k = b.refill_every} {x = over} {y = last - b.refill_anchor} p).1
            product,
      )
]

-- From any valid bucket, any sequence of requests up to a time `last` is handed at most the tokens that
-- are available and one more for each whole interval since the refill anchor: whatever the order and the
-- outcome of the calls, the burst is bounded by the content and the average rate by the refill rate.
pub take_all_rate :
    (b : Bucket) (calls : List (ℕ × ℕ)) (last : ℕ)
    → IsValid b
    → b.last_observed ≤ last
    → Within last calls
    → (take_all b calls).1 ≤ b.available + (last - b.refill_anchor) / b.refill_every
take_all_rate b calls last v h w =
    let (balanced, v', h') = take_all-Balanced b calls last v h w in
    Balanced-bound b (take_all b calls).0 (take_all b calls).1 last balanced v.refill_pos
      (omega (arith, v'.anchored))

-- A bucket made by `New` at `now` hands out at most its capacity and one more token for each whole
-- interval since then.
pub new-take_all_rate :
    (config : Config) (now : ℕ) (calls : List (ℕ × ℕ)) (last : ℕ) {b : Bucket}
    → IsWords config
    → now < time_limit
    → new config now ≡ ok b
    → now ≤ last
    → Within last calls
    → (take_all b calls).1 ≤ config.capacity + (last - now) / pos_part config.refill_every
new-take_all_rate config now calls last w i made h within =
    let (u, e) = new-eq-ok config now made in
    let v = new-IsValid config now w i made in
    rw e (
      take_all_rate (full config.capacity (pos_part config.refill_every) now) calls last (rw e at v)
        h within)
