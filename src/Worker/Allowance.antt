-- ===== src/Worker/Allowance.antt =====
-- internal/worker/worker.go: spendRetryBudget over the readings of one minute.
use resilient_mesh_razorpayb.Base.{
  ℕ, ◌+◌, ◌≡◌, refl, sym, ap, ◌∙◌, inl, inr, Bool, true, false, List, [], ◌∷◌, arith, if◌then◌else◌,
  Bool-cases, All, pos, pos_part, neg_part, ◌+ℤ◌, ◌≤ℤ◌, leb_ℤ, eqb_ℤ, eqb_ℤ-eq,
}
use resilient_mesh_razorpayb.Domain.Times.{Time}
use resilient_mesh_razorpayb.Worker.Config.{
  Config, Budget, truncate_minute, in_window, spend_retry_budget,
}

abbrev unit : Bool → ℕ
unit true = 1
unit false = 0

-- How many units the readings of a clock get, one after the other.
unfoldable pub units_spent : Config → List Time → Budget → ℕ
units_spent c [] b = 0
units_spent c (t ∷ ts) b =
    let (granted, rest) = spend_retry_budget c t b in unit granted + units_spent c ts rest

same_time : (t : Time) → eqb_ℤ t t ≡ true
same_time t = ground arith

in_window_same : (t : Time) (b : Budget) → b.window ≡ t → in_window t b ≡ b
unfolding in_window
in_window_same t b h =
    let same : eqb_ℤ t b.window ≡ true = ap (eqb_ℤ t) h ∙ same_time t in rw same refl

-- The budget of a minute, for a minute.
record Current (c : Config) (minute : Time) (b : Budget) : Type 0 where
  here : b.window ≡ minute
  natural : neg_part b.spent ≡ 0
  fits : b.spent ≤ℤ c.retry_budget_per_minute

-- Spending in the minute of the budget.
abbrev spend : Config → Budget → Bool × Budget
spend c b =
    if leb_ℤ c.retry_budget_per_minute b.spent
    then (false, b)
    else (true, record b { spent = b.spent +ℤ pos 1 })

spend_here :
    (c : Config) (t : Time) (b : Budget)
    → b.window ≡ truncate_minute t
    → spend_retry_budget c t b ≡ spend c b
unfolding spend_retry_budget
spend_here c t b h = ap (spend c) (in_window_same (truncate_minute t) b h)

spend-Current :
    (c : Config) (minute : Time) (b : Budget)
    → Current c minute b
    → Current c minute (spend c b).1
      × (pos_part (spend c b).1.spent ≡ unit (spend c b).0 + pos_part b.spent)
unfolding ◌+ℤ◌
spend-Current c minute b k = elim (Bool-cases (leb_ℤ c.retry_budget_per_minute b.spent)) [
  | inl y ↦ rw y (k, omega arith)
  | inr n ↦ rw n (
    record {
      here = k.here;
      natural = ground (arith, n, k.natural);
      fits = ground (arith, n, k.natural);
    },
    ground (arith, n, k.natural),
  )
]

spent_bound :
    (c : Config) (minute : Time) (ts : List Time) (b : Budget)
    → All (λ t. truncate_minute t ≡ minute) ts
    → Current c minute b
    → pos (units_spent c ts b + pos_part b.spent) ≤ℤ c.retry_budget_per_minute
unfolding units_spent
spent_bound c minute [] b h k = omega (arith, k.natural, k.fits)
spent_bound c minute (t ∷ ts) b (m, h) k =
    let (after, more) = spend-Current c minute b k in
    let here = spend_here c t b (k.here ∙ sym m) in
    rw here (omega (arith, more, spent_bound c minute ts (spend c b).1 h after))

in_window-Current :
    (c : Config) (minute : Time) (b : Budget)
    → pos 0 ≤ℤ c.retry_budget_per_minute
    → pos 0 ≤ℤ b.spent
    → b.spent ≤ℤ c.retry_budget_per_minute
    → Current c minute (in_window minute b)
unfolding in_window
in_window-Current c minute b room natural fits = elim (Bool-cases (eqb_ℤ minute b.window)) [
  | inl y ↦ rw y (record {
    here = sym (eqb_ℤ-eq minute b.window y);
    natural = ground (arith, natural);
    fits = fits;
  })
  | inr n ↦ rw n (record { here = refl; natural = refl; fits = room })
]

first_spend :
    (c : Config) (minute t : Time) (b : Budget)
    → truncate_minute t ≡ minute
    → spend_retry_budget c t b ≡ spend c (in_window minute b)
unfolding spend_retry_budget
first_spend c minute t b m = ap (λ k. spend c (in_window k b)) m

-- Of the readings of one minute, one after the other, at most as many get a unit as the configuration
-- allows, for a budget of any minute that has spent between nothing and that many.
pub units_spent-limit :
    (c : Config) (minute : Time) (ts : List Time) (b : Budget)
    → All (λ t. truncate_minute t ≡ minute) ts
    → pos 0 ≤ℤ c.retry_budget_per_minute
    → pos 0 ≤ℤ b.spent
    → b.spent ≤ℤ c.retry_budget_per_minute
    → pos (units_spent c ts b) ≤ℤ c.retry_budget_per_minute
unfolding units_spent
units_spent-limit c minute [] b h room natural fits = room
units_spent-limit c minute (t ∷ ts) b (m, h) room natural fits =
    let fresh = in_window-Current c minute b room natural fits in
    let first : spend_retry_budget c t b ≡ spend c (in_window minute b) =
      first_spend c minute t b m in
    let (after, more) = spend-Current c minute (in_window minute b) fresh in
    rw first (omega (arith, more, spent_bound c minute ts (spend c (in_window minute b)).1 h after))
