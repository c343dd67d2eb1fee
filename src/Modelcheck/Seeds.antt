-- ===== src/Modelcheck/Seeds.antt =====
-- internal/modelcheck/bfs.go: the initial states are lawful.
use resilient_mesh_razorpayb.Base.{
  ℕ, zero, suc, ◌+◌, ◌<◌, refl, Bool, List, [], ◌∷◌, map, arith, All, ℤ, pos, ◌≤ℤ◌,
}
use resilient_mesh_razorpayb.Modelcheck.Space.{State, key, proposals}
use resilient_mesh_razorpayb.Modelcheck.Successors.{
  count_from, concat_map, fresh_states, seed, fresh, with_delays, with_proposals, with_sessions,
  with_breakers, with_hours, with_amounts, with_categories,
}
use resilient_mesh_razorpayb.Modelcheck.Keeps.{All-append, sort_keys-All}
use resilient_mesh_razorpayb.Modelcheck.Reached.{IsLawful, LawfulKey, map-All}

key-All : (cap : ℤ) (ts : List State) → All (IsLawful cap) ts → All (LawfulKey cap) (map key ts)
key-All cap [] a = tt
key-All cap (t ∷ ts) (h, a) = ((t, h, refl), key-All cap ts a)

concat_map-All :
    {A : Type 0} (Q : A → Type 0) (P : State → Type 0) (f : A → List State) (xs : List A)
    → All Q xs
    → ((a : A) → Q a → All P (f a))
    → All P (concat_map f xs)
unfolding concat_map
concat_map-All Q P f [] q h = tt
concat_map-All Q P f (x ∷ xs) (q, qs) h =
    All-append P (f x) (concat_map f xs) (h x q) (concat_map-All Q P f xs qs h)

indices-All : (P : ℕ → Type 0) (i n : ℕ) → ((j : ℕ) → j < i + n → P j) → All P (count_from i n)
unfolding count_from
indices-All P i zero h = tt
indices-All P i (suc n) h = (h i (omega arith), indices-All P (suc i) n (λ j b. h j (omega arith)))

module _ (cap : ℤ) (enough : pos 0 ≤ℤ cap) where
  fresh-IsLawful :
      (r : Bool) (c a h b : ℕ) (l : Bool) (p d : ℕ)
      → c < 4
      → a < 6
      → h < 10
      → b < 3
      → p < 7
      → d < 4
      → IsLawful cap (fresh r c a h b l p d)
  unfolding fresh
  fresh-IsLawful r c a h b l p d hc ha hh hb hp hd = record {
    indexed = ground arith;
    capped = enough;
    halted_at_cap = λ q. ground arith;
    on_time = λ q. omega arith;
  }

  with_delays-All :
      (r : Bool) (c a h b : ℕ) (l : Bool) (p : ℕ)
      → c < 4
      → a < 6
      → h < 10
      → b < 3
      → p < 7
      → All (IsLawful cap) (with_delays r c a h b l p)
  unfolding with_delays
  with_delays-All r c a h b l p hc ha hh hb hp =
      map-All (λ j. j < 4) (IsLawful cap) (fresh r c a h b l p) _ (indices-All _ 0 4 (λ j q. q))
        (λ d hd. fresh-IsLawful r c a h b l p d hc ha hh hb hp hd)

  with_proposals-All :
      (r : Bool) (c a h b : ℕ) (l : Bool)
      → c < 4
      → a < 6
      → h < 10
      → b < 3
      → All (IsLawful cap) (with_proposals r c a h b l)
  unfolding with_proposals proposals
  with_proposals-All r c a h b l hc ha hh hb =
      concat_map-All (λ j. j < 7) (IsLawful cap) (with_delays r c a h b l) _
        (indices-All _ 0 7 (λ j q. q)) (λ p hp. with_delays-All r c a h b l p hc ha hh hb hp)

  with_sessions-All :
      (r : Bool) (c a h b : ℕ)
      → c < 4
      → a < 6
      → h < 10
      → b < 3
      → All (IsLawful cap) (with_sessions r c a h b)
  unfolding with_sessions
  with_sessions-All r c a h b hc ha hh hb =
      concat_map-All (λ l. Unit) (IsLawful cap) (with_proposals r c a h b) _ (tt, (tt, tt))
        (λ l q. with_proposals-All r c a h b l hc ha hh hb)

  with_breakers-All :
      (r : Bool) (c a h : ℕ) → c < 4 → a < 6 → h < 10 → All (IsLawful cap) (with_breakers r c a h)
  unfolding with_breakers
  with_breakers-All r c a h hc ha hh =
      concat_map-All (λ j. j < 3) (IsLawful cap) (with_sessions r c a h) _
        (indices-All _ 0 3 (λ j q. q)) (λ b hb. with_sessions-All r c a h b hc ha hh hb)

  with_hours-All : (r : Bool) (c a : ℕ) → c < 4 → a < 6 → All (IsLawful cap) (with_hours r c a)
  unfolding with_hours
  with_hours-All r c a hc ha =
      concat_map-All (λ j. j < 10) (IsLawful cap) (with_breakers r c a) _
        (indices-All _ 0 10 (λ j q. q)) (λ h hh. with_breakers-All r c a h hc ha hh)

  with_amounts-All : (r : Bool) (c : ℕ) → c < 4 → All (IsLawful cap) (with_amounts r c)
  unfolding with_amounts
  with_amounts-All r c hc =
      concat_map-All (λ j. j < 6) (IsLawful cap) (with_hours r c) _ (indices-All _ 0 6 (λ j q. q))
        (λ a ha. with_hours-All r c a hc ha)

  with_categories-All : (r : Bool) → All (IsLawful cap) (with_categories r)
  unfolding with_categories
  with_categories-All r =
      concat_map-All (λ j. j < 4) (IsLawful cap) (with_amounts r) _ (indices-All _ 0 4 (λ j q. q))
        (λ c hc. with_amounts-All r c hc)

  fresh_states-All : All (IsLawful cap) fresh_states
  unfolding fresh_states
  fresh_states-All =
      concat_map-All (λ r. Unit) (IsLawful cap) with_categories _ (tt, (tt, tt))
        (λ r q. with_categories-All r)

pub seed-All : (cap : ℤ) → pos 0 ≤ℤ cap → All (LawfulKey cap) seed
unfolding seed
seed-All cap c = sort_keys-All (LawfulKey cap) _ (key-All cap fresh_states (fresh_states-All cap c))
