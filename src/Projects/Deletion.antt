-- ===== src/Projects/Deletion.antt =====
-- What a deletion of apps/coordination-hub/src/projects/projects.service.ts leaves: the document stays,
-- and no lookup finds it.
use qr_blockchain_anticounte.Prelude.{
  ℕ, suc, ◌+◌, Str, str_eq, ◌≡◌, refl, ◌∙◌, ap, none, some, List, [], ◌∷◌, true, false, find, arith,
  count, Bool-cases, inl, inr,
}
use qr_blockchain_anticounte.Errors.{domain, project_not_found}
use qr_blockchain_anticounte.Documents.{ProjectDoc}
use qr_blockchain_anticounte.World.{Outside, Env, World, ok, err, ticked, db_read, db_write}
use qr_blockchain_anticounte.Projects.{
  find_live, is_live, replace_doc, project_is_valid, save_project, find_owned_by_producer,
  find_public, soft_delete, write_project,
}
use qr_blockchain_anticounte.Projects.Store.{Stored, find_live-is_live}
use qr_blockchain_anticounte.Projects.Access.{find_owned_of_owner}

none_live :
    (phi : Str) (ds : List ProjectDoc) → count (is_live phi) ds ≡ 0 → find_live phi ds ≡ none
unfolding find_live find
none_live phi [] h = refl
none_live phi (c ∷ ds) h = elim (Bool-cases (is_live phi c)) [
  | inl t ↦ absurd (ground (arith, t, h))
  | inr t ↦ ground (arith, t, h, none_live phi ds)
]

count-replace_doc :
    (phi : Str) (d d' : ProjectDoc) (ds : List ProjectDoc)
    → d'.id ≡ d.id
    → is_live phi d ≡ true
    → is_live phi d' ≡ false
    → find (λ e. str_eq e.id d.id) ds ≡ some d
    → suc (count (is_live phi) (replace_doc d' ds)) ≡ count (is_live phi) ds
unfolding find replace_doc
count-replace_doc phi d d' [] same live gone e = absurd (cc e)
count-replace_doc phi d d' (c ∷ ds) same live gone e = elim (Bool-cases (str_eq c.id d.id)) [
  | inl t ↦
      ground
        (arith, t, ap (λ i. str_eq c.id i) same, gone, ap (is_live phi) {x = c} {y = d}, live, e)
  | inr t ↦
      ground
        (arith, t, ap (λ i. str_eq c.id i) same, e, count-replace_doc phi d d' ds same live gone)
]

module _ (x : Outside) (env : Env) (quiet : (t : ℕ) → x.db t ≡ none) where
  -- the deleted document
  abbrev pub marked_deleted : ProjectDoc → World → ProjectDoc
  marked_deleted d w = record d {
    is_deleted = true;
    deleted_at = some (x.clock (w.tick + 1));
    updated_at = x.clock (w.tick + 1);
  }

  deleted_run :
      (phi : Str) (d : ProjectDoc) (w : World)
      → find_live phi w.projects ≡ some d
      → project_is_valid d ≡ true
      → soft_delete x env d.owner_producer_id phi w
        ≡ (ok tt, write_project (marked_deleted d w) (ticked (ticked w)))
  unfolding soft_delete save_project db_write project_is_valid
  deleted_run phi d w live valid =
      ground
        (arith, find_owned_of_owner x env phi d w (quiet w.tick) live, valid, quiet (w.tick + 1))

  missing_owned :
      (phi producer_id : Str) (w : World)
      → find_live phi w.projects ≡ none
      → (find_owned_by_producer x env producer_id phi w).0 ≡ err (domain (project_not_found phi))
  unfolding find_owned_by_producer db_read
  missing_owned phi producer_id w gone = ground (arith, quiet w.tick, gone)

  missing_public :
      (phi : Str) (w : World)
      → find_live phi w.projects ≡ none
      → (find_public x env phi w).0 ≡ err (domain (project_not_found phi))
  unfolding find_public db_read
  missing_public phi w gone = ground (arith, quiet w.tick, gone)

  -- When the database always answers, and a valid document is the only live one of its identifier and
  -- the one that its own id finds, its owner's deletion returns; the document is kept, marked as deleted with the
  -- time, in its place; and right after it both lookups of the identifier, by any producer and by the public,
  -- end with PROJECT_NOT_FOUND.
  pub soft_delete-missing :
      (phi producer_id : Str) (d : ProjectDoc) (w : World)
      → Stored phi w.projects d
      → count (is_live phi) w.projects ≡ 1
      → project_is_valid d ≡ true
      → let r = soft_delete x env d.owner_producer_id phi w in
        (r.0 ≡ ok tt)
        × (r.1.projects ≡ replace_doc (marked_deleted d w) w.projects)
        × ((find_owned_by_producer x env producer_id phi r.1).0
            ≡ err (domain (project_not_found phi)))
        × ((find_public x env phi r.1).0 ≡ err (domain (project_not_found phi)))
  soft_delete-missing phi producer_id d w s one valid =
      let ran = deleted_run phi d w s.live valid in
      let r = soft_delete x env d.owner_producer_id phi w in
      let kept : r.1.projects ≡ replace_doc (marked_deleted d w) w.projects =
        ap (λ z. z.1.projects) ran in
      let dead : is_live phi (marked_deleted d w) ≡ false = ground arith in
      let counted =
        count-replace_doc phi d (marked_deleted d w) w.projects refl
          (find_live-is_live phi w.projects d s.live) dead s.stored in
      let gone : find_live phi r.1.projects ≡ none =
        ap (find_live phi) kept
        ∙ none_live phi (replace_doc (marked_deleted d w) w.projects)
            (omega (arith, counted, one)) in
      (ap (λ z. z.0) ran, kept, missing_owned phi producer_id r.1 gone, missing_public phi r.1 gone)
