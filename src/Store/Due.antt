-- ===== src/Store/Due.antt =====
-- internal/store/schedule.go: the rows that a sweep finds are rows of the table.
use resilient_mesh_razorpayb.Base.{
  ◌≡◌, refl, ap, ◌∙◌, Bool, true, Option, none, some, List, [], ◌∷◌, map, arith, is_some, All,
  list_eq_refl,
}
use resilient_mesh_razorpayb.Text.{Bytes}
use resilient_mesh_razorpayb.Domain.Times.{Time}
use resilient_mesh_razorpayb.Store.Checks.{check_text, max_identifier_len}
use resilient_mesh_razorpayb.Store.Incidents.{
  IncidentRow, find_row, insert_due, due_rows, unschedule, ids_of,
}
use resilient_mesh_razorpayb.Store.Rows.{find_row-map, map_row}

-- A row that can be found by its id, and that the store accepts.
abbrev pub Known : List IncidentRow → Bytes → Type 0
Known rows id = (is_some (find_row id rows) ≡ true) × (check_text id 1 max_identifier_len ≡ true)

-- The ids of the rows are texts that the store accepts.
abbrev pub HasTexts : List IncidentRow → Type 0
HasTexts rows = All (λ (r : IncidentRow). check_text r.incident.id 1 max_identifier_len ≡ true) rows

found_later :
    (id : Bytes) (x : IncidentRow) (rows : List IncidentRow)
    → is_some (find_row id rows) ≡ true
    → is_some (find_row id (x ∷ rows)) ≡ true
unfolding find_row
found_later id x rows h = ground (arith, h)

found_here :
    (x : IncidentRow) (rows : List IncidentRow) → is_some (find_row x.incident.id (x ∷ rows)) ≡ true
unfolding find_row
found_here x rows = ground (arith, list_eq_refl x.incident.id)

later_rows :
    (x : IncidentRow) (rows xs : List IncidentRow)
    → All (λ (r : IncidentRow). Known rows r.incident.id) xs
    → All (λ (r : IncidentRow). Known (x ∷ rows) r.incident.id) xs
later_rows x rows [] h = tt
later_rows x rows (r ∷ xs) ((f, t), h) =
    ((found_later r.incident.id x rows f, t), later_rows x rows xs h)

pub own_rows :
    (rows : List IncidentRow)
    → HasTexts rows
    → All (λ (r : IncidentRow). Known rows r.incident.id) rows
own_rows [] h = tt
own_rows (x ∷ rows) (t, h) = ((found_here x rows, t), later_rows x rows rows (own_rows rows h))

insert_due-All :
    (P : IncidentRow → Type 0) (r : IncidentRow) (rows : List IncidentRow)
    → P r
    → All P rows
    → All P (insert_due r rows)
unfolding insert_due
insert_due-All P r [] h k = (h, tt)
insert_due-All P r (s ∷ rows) h (k, ks) = ground (arith, insert_due-All P r rows h ks, h, k, ks)

pub due_rows-All :
    (P : IncidentRow → Type 0) (at : Time) (locked : Bytes → Bool) (rows : List IncidentRow)
    → All P rows
    → All P (due_rows at locked rows)
unfolding due_rows
due_rows-All P at locked [] h = tt
due_rows-All P at locked (r ∷ rows) (h, hs) =
    let rest = due_rows-All P at locked rows hs in
    ground (arith, rest, insert_due-All P r (due_rows at locked rows) h rest)

is_some-map_row :
    (g : IncidentRow → IncidentRow) (o : Option IncidentRow) → is_some (map_row g o) ≡ is_some o
is_some-map_row g none = refl
is_some-map_row g (some r) = refl

pub mapped-Known :
    (g : IncidentRow → IncidentRow) (id : Bytes) (rows : List IncidentRow)
    → ((r : IncidentRow) → (g r).incident.id ≡ r.incident.id)
    → Known rows id
    → Known (map g rows) id
mapped-Known g id rows keep (f, t) =
    (ap is_some (find_row-map g id rows keep) ∙ is_some-map_row g (find_row id rows) ∙ f, t)

pub unschedule-id :
    (now : Time) (ids : List Bytes) (r : IncidentRow)
    → (unschedule now ids r).incident.id ≡ r.incident.id
unfolding unschedule
unschedule-id now ids r = ground arith

pub named_rows :
    (g : IncidentRow → IncidentRow) (rows xs : List IncidentRow)
    → ((r : IncidentRow) → (g r).incident.id ≡ r.incident.id)
    → All (λ (r : IncidentRow). Known rows r.incident.id) xs
    → All (Known (map g rows)) (ids_of xs)
named_rows g rows [] keep h = tt
named_rows g rows (x ∷ xs) keep (h, hs) =
    (mapped-Known g x.incident.id rows keep h, named_rows g rows xs keep hs)
