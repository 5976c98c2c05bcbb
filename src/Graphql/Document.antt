-- ===== src/Graphql/Document.antt =====
-- What src/graphql.rs keeps of a document: selections, their aliases and the arguments of fields.
use ferroada.Prelude.{ℕ, List, Bool}
use ferroada.Text.{Text}
use ferroada.DashMap.{DashMap}

-- `i64`: a number, or one less than the negative of one.
pub data ℤ : Type 0 where
  pos negsuc : ℕ → ℤ

pub data GqlValue : Type 0 where
  int : ℤ → GqlValue
  variable : Text → GqlValue
  other : GqlValue

abbrev pub Arguments : Type 0
Arguments = List (Text × GqlValue)

-- A field is a `leaf`, or a `parent` where it has a selection of its own.
mutual
  pub data Selection : Type 0 where
    leaf : Bool → Text → Arguments → Selection
    parent : Bool → Text → Arguments → SelectionSet → Selection
    spread : Text → Selection
    inline : SelectionSet → Selection

  pub data SelectionSet : Type 0 where
    done : SelectionSet
    cons : Selection → SelectionSet → SelectionSet

pub record Document : Type 0 where
  pub operations : List SelectionSet
  pub fragments : DashMap Text SelectionSet
