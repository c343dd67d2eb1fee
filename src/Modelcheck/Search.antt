-- ===== src/Modelcheck/Search.antt =====
-- internal/modelcheck/bfs.go: the traversal of RunContext, for any transition relation and any tally of
-- what the visits find. The frontier is the queue of states still to visit; the visited map is the list
-- of the keys admitted so far.
use resilient_mesh_razorpayb.Base.{
  ℕ, zero, suc, ◌+◌, Bool, true, List, [], ◌∷◌, ◌++◌, ltb, leb, ◌==◌, if◌then◌else◌, length, take,
  any,
}

-- slices.Sort and slices.Compact: ascending, each key once.
unfoldable pub insert_key : ℕ → List ℕ → List ℕ
insert_key k [] = k ∷ []
insert_key k (x ∷ xs) =
    let rest = insert_key k xs in
    if ltb k x then k ∷ x ∷ xs else if k == x then x ∷ xs else x ∷ rest

unfoldable pub sort_keys : List ℕ → List ℕ
unfolding insert_key
sort_keys [] = []
sort_keys (k ∷ ks) = insert_key k (sort_keys ks)

abbrev pub seen : ℕ → List ℕ → Bool
seen k ks = any (λ (x : ℕ). x == k) ks

-- The state of the traversal.
pub record Traversal (T : Type 0) : Type 0 where
  pub frontier : List ℕ
  pub visited : List ℕ
  pub bounded : Bool
  pub transitions : ℕ
  pub tally : T

module _ {T : Type 0} (successors : ℕ → List ℕ) (inspect : ℕ → T → T) (max_states : ℕ) where
  -- The body of the loop over the successors of one state.
  unfoldable pub offer : ℕ → Traversal T → Traversal T
  offer k t =
      if seen k t.visited
      then t
      else if leb max_states (length t.visited)
      then record t { bounded = true }
      else record t { visited = t.visited ++ k ∷ []; frontier = t.frontier ++ k ∷ [] }

  unfoldable pub admit : List ℕ → Traversal T → Traversal T
  admit [] t = t
  admit (k ∷ ks) t = admit ks (offer k t)

  -- The visit of one state.
  unfoldable pub visit : ℕ → Traversal T → Traversal T
  visit k t =
      admit (successors k) (record t {
        tally = inspect k t.tally;
        transitions = t.transitions + length (successors k);
      })

  -- The loop over the frontier. Every visited state is visited once, so as many rounds as
  -- there may be states are enough.
  unfoldable pub explore : ℕ → Traversal T → Traversal T
  explore zero t = t
  explore (suc rounds) t = elim t.frontier [
    | [] ↦ t
    | k ∷ rest ↦ explore rounds (visit k (record t { frontier = rest }))
  ]

  -- The seeds, cut at the bound.
  unfoldable pub start : List ℕ → T → Traversal T
  start seeds none_yet =
      let kept = take max_states seeds in
      record {
        frontier = kept;
        visited = kept;
        bounded = ltb max_states (length seeds);
        transitions = 0;
        tally = none_yet;
      }

  unfoldable pub run : List ℕ → T → Traversal T
  run seeds none_yet = explore max_states (start seeds none_yet)
