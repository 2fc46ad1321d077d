-- ===== src/Projects/Store.antt =====
-- The document that a project identifier finds in the collection of projects, and what saving it
-- (apps/coordination-hub/src/projects/projects.service.ts) does to it.
use qr_blockchain_anticounte.Prelude.{
  Str, str_eq, str_eq_refl, ◌≡◌, ap, some, List, [], ◌∷◌, true, find, arith,
}
use qr_blockchain_anticounte.Documents.{ProjectDoc}
use qr_blockchain_anticounte.Projects.{find_live, is_live, replace_doc}

-- The document is the one that the identifier finds, and the one that its own id finds.
pub record Stored (phi : Str) (ds : List ProjectDoc) (d : ProjectDoc) : Type 0 where
  pub live : find_live phi ds ≡ some d
  pub stored : find (λ e. str_eq e.id d.id) ds ≡ some d

pub find_live-is_live :
    (phi : Str) (ds : List ProjectDoc) (d : ProjectDoc)
    → find_live phi ds ≡ some d
    → is_live phi d ≡ true
unfolding find_live find
find_live-is_live phi [] d e = cc
find_live-is_live phi (c ∷ ds) d e = ground (arith, find_live-is_live phi ds d)

module _ (d d' : ProjectDoc) (same : d'.id ≡ d.id) where
  find-replace_doc :
      (ds : List ProjectDoc)
      → find (λ e. str_eq e.id d.id) ds ≡ some d
      → find (λ e. str_eq e.id d.id) (replace_doc d' ds) ≡ some d'
  unfolding find replace_doc
  find-replace_doc [] e = cc
  find-replace_doc (c ∷ ds) e = ground (
    arith,
    find-replace_doc ds,
    ap (λ i. str_eq c.id i) same,
    ap (λ i. str_eq i d.id) same,
    str_eq_refl d.id,
  )

  find_live-replace_doc :
      (phi : Str) (ds : List ProjectDoc)
      → is_live phi d' ≡ true
      → find_live phi ds ≡ some d
      → find (λ e. str_eq e.id d.id) ds ≡ some d
      → find_live phi (replace_doc d' ds) ≡ some d'
  unfolding find_live find replace_doc
  find_live-replace_doc phi [] l e k = cc
  find_live-replace_doc phi (c ∷ ds) l e k = ground (
    arith,
    find_live-replace_doc phi ds,
    ap (λ i. str_eq c.id i) same,
    str_eq_refl d.id,
    ap (λ z. str_eq z.id d.id) {x = c} {y = d},
    find_live-is_live phi (c ∷ ds) d e,
    ap (is_live phi) {x = c} {y = d},
    l,
    e,
    k,
  )

  pub replaced-Stored :
      (phi : Str) (ds : List ProjectDoc)
      → is_live phi d' ≡ true
      → Stored phi ds d
      → Stored phi (replace_doc d' ds) d'
  replaced-Stored phi ds l s = record {
    live = find_live-replace_doc phi ds l s.live s.stored;
    stored = ground (
      arith,
      find-replace_doc ds s.stored,
      ap (λ i. find (λ (e : ProjectDoc). str_eq e.id i) (replace_doc d' ds)) same,
    );
  }
