-- ===== src/Gate/RowLeaks.antt =====
-- What the mask of a child row withholds: the columns that the partner corrected, below the
-- section's partner audience (`gateRowFields` of apps/api/src/gate/gate.ts).
use capbase.Base.{
  has-keep, String, ◌≡◌, refl, Bool, true, false, ◌&&◌, ◌||◌, not, Option, none, some, List, [],
  ◌∷◌, keep, if◌then◌else◌, lookup, contains, has, or_else, arith,
}
use capbase.Visibility.Types.{UnlockBy, sign_in, GatedSection, GatePolicy, ViewerAccess}
use capbase.Visibility.Viewer.{section_partner_rows, section_partner_unlock_by}
use capbase.Gate.Masks.{Value, Entity, is_empty, all_by, mask_fields, gate_row_fields}
use capbase.Gate.Leaks.{mask_fields_lem, mask_fields_of_empty, Masks}

lookup-all_by :
    (by : UnlockBy) (f : String) (l : List String)
    → lookup f (all_by by l) ≡ (if has f l then some by else none)
unfolding all_by
lookup-all_by by f [] = refl
lookup-all_by by f (x ∷ l) = ground (arith, lookup-all_by by f l)

-- The columns of a row that are withheld.
abbrev pub is_row_due :
    Entity → Option (List String) → ViewerAccess → GatePolicy → GatedSection → String → Bool
is_row_due row partner_fields a g section f =
    contains f row.fields
    && has f (or_else partner_fields [])
    && not (section_partner_rows g section a)

-- The tests for empty lists change nothing.
row_mask :
    (row : Entity) (l : List String) (met : Bool) (by : UnlockBy) (blanks : List (String × Value))
    → let fields = keep (λ f. contains f row.fields) l in
      (if is_empty l || met
        then row
        else if is_empty fields
        then row
        else mask_fields blanks (all_by by fields) row fields)
      ≡ (if met then row else mask_fields blanks (all_by by fields) row fields)
unfolding all_by
row_mask row [] true by blanks = refl
row_mask row (x ∷ l) true by blanks = refl
row_mask row [] false by blanks = mask_fields_of_empty blanks [] row []
row_mask row (x ∷ l) false by blanks = mask_fields_of_empty blanks _ row _

-- `gateRowFields` withholds exactly the columns that the partner corrected, and only from a viewer who
-- does not receive the section's partner rows; the hint of each is what reveals those rows. Every
-- other column and mark is as it was.
pub gate_row_fields-Masks :
    (row : Entity) (partner_fields : Option (List String)) (a : ViewerAccess) (g : GatePolicy)
    (section : GatedSection) (blanks : List (String × Value))
    → Masks blanks
        (is_row_due row partner_fields a g section)
        (λ f. or_else (section_partner_unlock_by g section a) sign_in)
        row
        (gate_row_fields row partner_fields a g section blanks)
unfolding gate_row_fields
gate_row_fields-Masks row partner_fields a g section blanks =
    let l = or_else partner_fields [] in
    let by = or_else (section_partner_unlock_by g section a) sign_in in
    let fields = keep (λ f. contains f row.fields) l in
    let met = section_partner_rows g section a in
    let lem = λ (f : String). mask_fields_lem blanks (all_by by fields) row fields f in
    let kept = λ (f : String). has-keep (λ x. contains x row.fields) f l in
    let tag = λ (f : String). lookup-all_by by f fields in
    rw (row_mask row l met by blanks) (record {
      blanked = λ f. let p = lem f in let k = kept f in ground arith;
      marked = λ f. let p = lem f in let k = kept f in ground arith;
      hinted = λ f. let p = lem f in let k = kept f in let t = tag f in ground arith;
    })
