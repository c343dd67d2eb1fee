-- ===== src/Worker/Steps.antt =====
-- internal/worker/worker.go: what a part of the pipeline adds to the log, and what it leaves alone.
use mathlib.Core.List.{append-nil}
use resilient_mesh_razorpayb.Modelcheck.Keeps.{All-append}
use resilient_mesh_razorpayb.Base.{
  ℕ, ◌+◌, ◌≤◌, ◌≡◌, refl, sym, ap, ◌∙◌, List, [], ◌∷◌, ◌++◌, arith, All, append_assoc,
}
use resilient_mesh_razorpayb.Text.{Bytes}
use resilient_mesh_razorpayb.Domain.Records.{SanitizedCommand}
use resilient_mesh_razorpayb.Store.Rows.{count_at}
use resilient_mesh_razorpayb.Worker.State.{World, Event, presented, emit}

-- What an event must be, if it is a call of the gateway.
abbrev pub Only : (SanitizedCommand → Type 0) → Event → Type 0
Only Q (presented c) = Q c
Only Q _ = Unit

abbrev pub is_call : Event → ℕ
is_call (presented c) = 1
is_call _ = 0

abbrev pub calls : List Event → ℕ
calls [] = 0
calls (x ∷ xs) = is_call x + calls xs

-- At most `n` calls of the gateway, with commands as required, and no change to a count of attempts.
pub record Step (Q : SanitizedCommand → Type 0) (n : ℕ) (w v : World) : Type 0 where
  pub events : List Event
  pub log_lem : v.log ≡ w.log ++ events
  pub only : All (Only Q) events
  pub few : calls events ≤ n
  pub counts : (j : Bytes) → count_at j v.incidents ≡ count_at j w.incidents

calls-append : (xs ys : List Event) → calls (xs ++ ys) ≡ calls xs + calls ys
calls-append [] ys = omega arith
calls-append (x ∷ xs) ys = omega (arith, calls-append xs ys)

module _ (Q : SanitizedCommand → Type 0) where
  pub stay : (w : World) → Step Q 0 w w
  stay w = record {
    events = [];
    log_lem = sym (append-nil w.log);
    only = tt;
    few = omega arith;
    counts = λ j. refl;
  }

  pub then_step : {m n : ℕ} {u v w : World} → Step Q m u v → Step Q n v w → Step Q (m + n) u w
  then_step a b = record {
    events = a.events ++ b.events;
    log_lem = b.log_lem ∙ ap (λ l. l ++ b.events) a.log_lem ∙ append_assoc _ a.events b.events;
    only = All-append (Only Q) a.events b.events a.only b.only;
    few = omega (arith, calls-append a.events b.events, a.few, b.few);
    counts = λ j. b.counts j ∙ a.counts j;
  }

  pub more : {m n : ℕ} {u v : World} → m ≤ n → Step Q m u v → Step Q n u v
  more h a = record {
    events = a.events;
    log_lem = a.log_lem;
    only = a.only;
    few = omega (arith, h, a.few);
    counts = a.counts;
  }

  -- An event that is none of the gateway.
  pub emitted : (x : Event) (w : World) → is_call x ≡ 0 → Only Q x → Step Q 0 w (emit x w)
  emitted x w h q = record {
    events = x ∷ [];
    log_lem = refl;
    only = (q, tt);
    few = omega (arith, h);
    counts = λ j. refl;
  }

  pub called : (c : SanitizedCommand) (w : World) → Q c → Step Q 1 w (emit (presented c) w)
  called c w q = record {
    events = presented c ∷ [];
    log_lem = refl;
    only = (q, tt);
    few = omega arith;
    counts = λ j. refl;
  }

  -- A change that leaves the log and the counts alone.
  pub silent :
      (w v : World)
      → v.log ≡ w.log
      → ((j : Bytes) → count_at j v.incidents ≡ count_at j w.incidents)
      → Step Q 0 w v
  silent w v h k = record {
    events = [];
    log_lem = h ∙ sym (append-nil w.log);
    only = tt;
    few = omega arith;
    counts = k;
  }
