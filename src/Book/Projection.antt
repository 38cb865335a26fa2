-- ===== src/Book/Projection.antt =====
-- crates/sim-lib-expedition-book/src/projection.rs: the bounded readable face of a book.
use Prim.Native.String.{◌++◌}
use sim_expr_tree.Prelude.{
  ℕ, zero, suc, String, Bool, true, Option, none, some, List, [], ◌∷◌, length, ltb, ◌≡◌, ◌≤◌, ◌<◌,
  refl, ap, ◌↔◌, arith,
}
use sim_expr_tree.Prelude.Decimal.{decimal}
use sim_expr_tree.Prelude.BTreeMap.{values}
use sim_expr_tree.Book.Model.{Branch}
use sim_expr_tree.Book.Edit.{ExpeditionBook}

pub record BookProjection : Type 0 where
  pub revision : ℕ
  pub rows : List String
  pub truncated : Bool

abbrev pub or_dash : Option String → String
or_dash none = "-"
or_dash (some s) = s

unfoldable pub row_text : Branch → String
row_text b =
    b.id
    ++ (" | "
        ++ (b.thesis
            ++ (" | objections="
                ++ (decimal (length b.objections) ++ (" | next=" ++ or_dash b.next_play)))))

unfoldable pub take_rows : ℕ → List Branch → List String
unfolding row_text
take_rows zero branches = []
take_rows (suc limit) [] = []
take_rows (suc limit) (b ∷ branches) = row_text b ∷ take_rows limit branches

unfoldable pub project : ExpeditionBook → ℕ → BookProjection
unfolding take_rows
project book limit =
    let rows = take_rows limit (values book.branches) in
    record {
      revision = book.revision;
      rows = rows;
      truncated = ltb (length rows) (length book.branches);
    }

length-take_rows :
    (limit : ℕ) (branches : List Branch)
    → (length (take_rows limit branches) ≤ limit)
      × (length (take_rows limit branches) ≤ length branches)
      × ((length (take_rows limit branches) < length branches) ↔ (limit < length branches))
unfolding take_rows
length-take_rows zero branches = ground arith
length-take_rows (suc limit) [] = ground arith
length-take_rows (suc limit) (b ∷ branches) = ground (arith, length-take_rows limit branches)

length-values : {V : Type 0} (m : List (String × V)) → length (values m) ≡ length m
length-values [] = refl
length-values (kv ∷ m) = ap suc (length-values m)

-- A projection carries the book's revision, has no more rows than the limit and than the book has
-- branches, and says that it is truncated exactly where the book has more branches than the limit.
pub project-bounded :
    (book : ExpeditionBook) (limit : ℕ)
    → ((project book limit).revision ≡ book.revision)
      × (length (project book limit).rows ≤ limit)
      × (length (project book limit).rows ≤ length book.branches)
      × (((project book limit).truncated ≡ true) ↔ (limit < length book.branches))
unfolding project
project-bounded book limit =
    let (below, within, short) = length-take_rows limit (values book.branches) in
    let e = length-values book.branches in
    (refl, below, omega (arith, within, e), ground (arith, short, e))
