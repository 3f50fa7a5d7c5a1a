-- ===== src/People/Outcomes.antt =====
-- What becomes of each role in `assignPeople` (apps/jobs/src/ingest/person-matcher.ts).
use capbase.Base.{
  ℕ, ◌+◌, ◌≡◌, refl, sym, ◌∙◌, false, none, List, [], ◌∷◌, ◌++◌, ◌||◌, map, Text, eq_text,
  eq_text-same, has_text, length, All, arith,
}
use capbase.People.Assign.{BackfillRole, Assignment, get, put, Target, person, minted, attach}
use capbase.People.Safe.{NoDup, eq_text-sym}

abbrev pub ids : List BackfillRole → List Text
ids roles = map (λ r. r.id) roles

-- The roles that have an outcome.
abbrev pub decided : Assignment → ℕ
decided run =
    run.skipped + run.unusable + run.suppressed + (length run.attached + length run.assigned_refs)

-- The role is neither attached nor assigned yet.
abbrev pub Open : Assignment → Text → Type 0
Open run id = (get id run.attached ≡ none) × (get id run.assigned_refs ≡ none)

module _ {ℓ} {V : Type ℓ} where
  length-put :
      (key : Text) (value : V) (table : List (Text × V))
      → get key table ≡ none
      → length (put key value table) ≡ length table + 1
  unfolding get put
  length-put key value [] h = refl
  length-put key value (e ∷ table) h = ground (arith, length-put key value table)

  get-put_other :
      (key other : Text) (value : V) (table : List (Text × V))
      → eq_text key other ≡ false
      → get other (put key value table) ≡ get other table
  unfolding get put
  get-put_other key other value [] h = ground arith
  get-put_other key other value (e ∷ table) h =
      ground (arith, get-put_other key other value table h, eq_text-same e.0 key)

-- A role and the ids still to come, all of them different and open.
abbrev pub Pending : Assignment → List Text → Type 0
Pending run l = NoDup l × All (Open run) l

pub attach-decided :
    (run : Assignment) (role : BackfillRole) (target : Target)
    → Open run role.id
    → decided (attach run role target) ≡ decided run + 1
unfolding attach
attach-decided run role (person id) h = ground (arith, length-put role.id id run.attached)
attach-decided run role (minted ref) h = ground (arith, length-put role.id ref run.assigned_refs)

attach-Open :
    (run : Assignment) (role : BackfillRole) (target : Target) (id : Text)
    → eq_text role.id id ≡ false
    → Open run id
    → Open (attach run role target) id
unfolding attach
attach-Open run role (person p) id h o = (get-put_other role.id id p run.attached h ∙ o.0, o.1)
attach-Open run role (minted ref) id h o =
    (o.0, get-put_other role.id id ref run.assigned_refs h ∙ o.1)

pub attach-All :
    (run : Assignment) (role : BackfillRole) (target : Target) (l : List Text)
    → has_text role.id l ≡ false
    → All (Open run) l
    → All (Open (attach run role target)) l
unfolding has_text
attach-All run role target [] h o = tt
attach-All run role target (x ∷ l) h o = (
  attach-Open run role target x (ground (arith, eq_text-sym role.id x)) o.0,
  attach-All run role target l (ground arith) o.1,
)

has_text-append :
    (s : Text) (l m : List Text) → has_text s (l ++ m) ≡ (has_text s l || has_text s m)
unfolding has_text
has_text-append s [] m = refl
has_text-append s (x ∷ l) m = ground (arith, has_text-append s l m)

-- A list of different texts without one of them.
pub NoDup-middle :
    (l : List Text) (x : Text) (m : List Text)
    → NoDup (l ++ x ∷ m)
    → NoDup (l ++ m) × (has_text x (l ++ m) ≡ false)
unfolding has_text
NoDup-middle [] x m h = (h.1, h.0)
NoDup-middle (y ∷ l) x m h =
    let ih = NoDup-middle l x m h.1 in
    let parts : (has_text y l || has_text y (x ∷ m)) ≡ false =
      sym (has_text-append y l (x ∷ m)) ∙ h.0 in
    ((has_text-append y l m ∙ ground arith, ih.0), ground (arith, ih.1, eq_text-sym y x))

pub All-middle {ℓ κ} :
    {A : Type ℓ} (P : A → Type κ) (l : List A) (x : A) (m : List A)
    → All P (l ++ x ∷ m)
    → P x × All P (l ++ m)
All-middle P [] x m h = h
All-middle P (y ∷ l) x m h = let ih = All-middle P l x m h.1 in (ih.0, (h.0, ih.1))

-- What a round does: it decides the role, or leaves it for the second loop.
abbrev pub Decides : Assignment → Assignment → BackfillRole → Type 0
Decides run next role =
    (decided next ≡ decided run + 1)
    × (next.remaining ≡ run.remaining)
    × ((l : List Text) → has_text role.id l ≡ false → All (Open run) l → All (Open next) l)

abbrev pub Defers : Assignment → Assignment → BackfillRole → Type 0
Defers run next role =
    (decided next ≡ decided run)
    × (next.remaining ≡ run.remaining ++ role ∷ [])
    × ((l : List Text) → All (Open run) l → All (Open next) l)
