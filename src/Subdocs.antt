-- ===== src/Subdocs.antt =====
-- What mongoose's array of embedded documents offers to activities/activities.service.ts and
-- certifications/certifications.service.ts of apps/coordination-hub/src: `id(…)`, an assignment to the
-- document found, and its `deleteOne()`.
use qr_blockchain_anticounte.Prelude.{Str, str_eq, Option, none, some, List, [], ◌∷◌, if◌then◌else◌}

module _ {A : Type 0} (id_of : A → Str) where
  unfoldable pub sub_by_id : (id : Str) → List A → Option A
  sub_by_id id [] = none
  sub_by_id id (a ∷ xs) = if str_eq (id_of a) id then some a else sub_by_id id xs

  unfoldable pub change_sub : (id : Str) → (A → A) → List A → List A
  change_sub id f [] = []
  change_sub id f (a ∷ xs) = if str_eq (id_of a) id then f a ∷ xs else a ∷ change_sub id f xs

  unfoldable pub remove_sub : (id : Str) → List A → List A
  remove_sub id [] = []
  remove_sub id (a ∷ xs) = if str_eq (id_of a) id then xs else a ∷ remove_sub id xs
