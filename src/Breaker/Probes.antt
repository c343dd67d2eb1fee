-- ===== src/Breaker/Probes.antt =====
-- internal/breaker/breaker.go: how many attempts Allow lets through.
use resilient_mesh_razorpayb.Base.{
  ℕ, suc, ◌+◌, ◌≡◌, ◌≤◌, ◌<◌, ◌⊎◌, ◌↔◌, inl, inr, refl, true, false, some, List, [], ◌∷◌, arith,
  All, length, ℤ, pos, ltb, leb, Bool-cases, if◌then◌else◌, ◌-ℤ◌, ◌≤ℤ◌, ◌<ℤ◌,
}
use resilient_mesh_razorpayb.Domain.Vocabulary.{closed, opened, half_open}
use resilient_mesh_razorpayb.Breaker.Scripts.{
  Issuer, Tuning, allow, read_state, read_state-name, state_name, or_else, effective,
}

-- A half-open episode, or one that this call begins, has a probe to give.
abbrev pub HasProbe : Tuning → ℤ → Issuer → Type 0
HasProbe c now i =
    (read_state i.state ≡ some opened)
    ⊎ (c.probe_lease_ms ≤ℤ now -ℤ or_else now i.half_open_at)
    ⊎ (or_else 0 i.probes < c.max_probes)

-- For a budget of at least one probe, Allow admits an attempt exactly when State reads CLOSED at
-- that moment, or reads HALF_OPEN and a probe is left, the lease of the probes is over or the
-- episode begins with this call.
pub allow-effective_iff :
    (c : Tuning) (now : ℤ) (i : Issuer)
    → 1 ≤ c.max_probes
    → ((allow c now i).allowed ≡ true)
      ↔ (effective c now i ≡ closed) ⊎ ((effective c now i ≡ half_open) × HasProbe c now i)
unfolding allow effective
allow-effective_iff c now i b = ground arith

-- The number of attempts that a sequence of calls of Allow, at these times, lets through.
unfoldable pub admitted : Tuning → List ℤ → Issuer → ℕ
admitted c [] i = 0
admitted c (now ∷ ts) i =
    let rest = admitted c ts (allow c now i).after in
    if (allow c now i).allowed then suc rest else rest

abbrev pub InLease : Tuning → ℤ → ℤ → Type 0
InLease c since now = now -ℤ since <ℤ c.probe_lease_ms

spends :
    (c : Tuning) (now since : ℤ) (p : ℕ) (i : Issuer)
    → read_state i.state ≡ some half_open
    → i.probes ≡ some p
    → i.half_open_at ≡ some since
    → InLease c since now
    → p < c.max_probes
    → ((allow c now i).allowed ≡ true)
      × ((allow c now i).after ≡ record i { probes = some (p + 1) })
unfolding allow
spends c now since p i s q l h b = ground arith

denies :
    (c : Tuning) (now since : ℤ) (p : ℕ) (i : Issuer)
    → read_state i.state ≡ some half_open
    → i.probes ≡ some p
    → i.half_open_at ≡ some since
    → InLease c since now
    → c.max_probes ≤ p
    → ((allow c now i).allowed ≡ false) × ((allow c now i).after ≡ i)
unfolding allow
denies c now since p i s q l h b = ground arith

abbrev least : ℕ → ℕ → ℕ
least a b = if leb a b then a else b

episode :
    (c : Tuning) (since : ℤ) (p : ℕ) (i : Issuer) (ts : List ℤ)
    → read_state i.state ≡ some half_open
    → i.probes ≡ some p
    → i.half_open_at ≡ some since
    → All (InLease c since) ts
    → p ≤ c.max_probes
    → p + admitted c ts i ≡ least (p + length ts) c.max_probes
unfolding admitted
episode c since p i [] s q l h b = ground arith
episode c since p i (now ∷ ts) s q l h b = elim (Bool-cases (ltb p c.max_probes)) [
  | inl k ↦
      (let (a, e) = spends c now since p i s q l h.0 (ground (arith, k)) in
        let rest =
          episode c since (p + 1) (record i { probes = some (p + 1) }) ts s refl l h.1
            (ground (arith, k)) in
        rw (a, e) (ground (arith, rest)))
  | inr k ↦
      (let (a, e) = denies c now since p i s q l h.0 (ground (arith, k)) in
        let rest = episode c since p i ts s q l h.1 b in rw (a, e) (ground (arith, rest, k)))
]

begins :
    (c : Tuning) (now : ℤ) (i : Issuer)
    → read_state i.state ≡ some opened
    → c.cooldown_ms ≤ℤ now -ℤ or_else (pos 0) i.opened_at
    → ((allow c now i).allowed ≡ true)
      × ((allow c now i).after ≡ record i {
        state = some (state_name half_open);
        probes = some 1;
        half_open_at = some now;
      })
unfolding allow
begins c now i s e = ground arith

-- The probe budget holds a herd of callers: for a budget of at least one probe, when the cooldown
-- of an open breaker has elapsed, of this call of Allow and any number of calls that follow within
-- the lease of the episode, exactly as many are admitted as the budget has probes, or all if they
-- are fewer.
pub admitted-budget :
    (c : Tuning) (t0 : ℤ) (i : Issuer) (ts : List ℤ)
    → read_state i.state ≡ some opened
    → c.cooldown_ms ≤ℤ t0 -ℤ or_else (pos 0) i.opened_at
    → All (InLease c t0) ts
    → 1 ≤ c.max_probes
    → admitted c (t0 ∷ ts) i
      ≡ (if leb (suc (length ts)) c.max_probes then suc (length ts) else c.max_probes)
unfolding admitted
admitted-budget c t0 i ts s e h b =
    let (a, same) = begins c t0 i s e in
    let rest =
      episode c t0 1
        (record i { state = some (state_name half_open); probes = some 1; half_open_at = some t0 })
        ts (read_state-name half_open) refl refl h b in
    rw (a, same) (ground (arith, rest))
