-- ===== src/Panes/Owning.antt =====
-- A `PaneSet` of src/pane_set.rs owns one content for each leaf of its layout.
use rustmux.Base.{
  Bool-cases, List, ap, arith, inl, inr, length, none, refl, some, suc, true, ◌++◌, ◌==◌, ◌∷◌, ◌≡◌,
  [], false,
}
use rustmux.Base.Members.{erase, member, Distinct}
use rustmux.Layout.Node.{PaneId}
use rustmux.Layout.Valid.{IsValid}
use rustmux.Layout.Leaves.{leaves}
use rustmux.Panes.Set.{PaneSet, lookup, without}

module _ {T : Type 0} where
  abbrev pub keys : List (PaneId × T) → List PaneId
  keys [] = []
  keys ((id, content) ∷ entries) = id ∷ keys entries

  -- The layout is valid, and the identities of the entries are its leaves, each once.
  pub record Owns (set : PaneSet T) : Type 0 where
    pub valid : IsValid set.layout
    pub once : Distinct (keys set.entries)
    pub same : (t : PaneId) → member t (keys set.entries) ≡ member t (leaves set.layout.root)
    pub as_many : length set.entries ≡ set.layout.count

  pub keys-without :
      (id : PaneId) (entries : List (PaneId × T))
      → keys (without id entries) ≡ erase id (keys entries)
  keys-without id [] = refl
  keys-without id ((t, content) ∷ entries) = ground (arith, keys-without id entries)

  pub keys-append :
      (entries : List (PaneId × T)) (id : PaneId) (content : T)
      → keys (entries ++ (id, content) ∷ []) ≡ keys entries ++ id ∷ []
  keys-append [] id content = refl
  keys-append ((t, c) ∷ entries) id content = ap (λ l. t ∷ l) (keys-append entries id content)

  pub lookup-member :
      (id : PaneId) (entries : List (PaneId × T))
      → member id (keys entries) ≡ true
      → (content : T) × (lookup id entries ≡ some content)
  lookup-member id [] m = absurd (cc)
  lookup-member id ((t, content) ∷ entries) m = elim (Bool-cases (t == id)) [
    | inl here ↦ (content, rw here)
    | inr apart ↦ let (found, e) = lookup-member id entries (ground arith) in (found, rw apart e)
  ]

  pub lookup_absent :
      (id : PaneId) (entries : List (PaneId × T))
      → member id (keys entries) ≡ false
      → lookup id entries ≡ none
  lookup_absent id [] m = refl
  lookup_absent id ((t, content) ∷ entries) m = elim (Bool-cases (t == id)) [
    | inl here ↦ absurd (ground arith)
    | inr apart ↦ rw apart (lookup_absent id entries (ground arith))
  ]

  pub length-keys : (entries : List (PaneId × T)) → length (keys entries) ≡ length entries
  length-keys [] = refl
  length-keys ((t, content) ∷ entries) = ap suc (length-keys entries)
