-- ===== src/Authz/Plugin/Words.antt =====
-- The words that the match in `decide`, docker-authz-plugin/src/lib.rs, compares with.
use mathlib.Core.Bool.{false≢true}
use fire_crow.Prelude.{◌≡◌, refl, sym, ap, ◌∙◌, inl, inr, true, false, Bool-cases}
use fire_crow.Text.{Str, str, str_eq, ends_with}
use fire_crow.Text.Equality.{str_eq_iff}
use fire_crow.Authz.Path.{is_lifecycle_op}

module _ (m : Str) where
  pub post_lem :
      m ≡ str "POST"
      → (str_eq m (str "HEAD") ≡ false)
        × (str_eq m (str "GET") ≡ false)
        × (str_eq m (str "POST") ≡ true)
        × (str_eq m (str "DELETE") ≡ false)
  unfolding str_eq str
  post_lem e = rw e (refl, refl, refl, refl)

  pub delete_lem :
      m ≡ str "DELETE"
      → (str_eq m (str "HEAD") ≡ false)
        × (str_eq m (str "GET") ≡ false)
        × (str_eq m (str "POST") ≡ false)
        × (str_eq m (str "DELETE") ≡ true)
  unfolding str_eq str
  delete_lem e = rw e (refl, refl, refl, refl)

differs :
    (path word : Str)
    → is_lifecycle_op word ≡ false
    → is_lifecycle_op path ≡ true
    → str_eq path word ≡ false
differs path word away h = elim (Bool-cases (str_eq path word)) [
  | inl e ↦
      absurd (false≢true (sym away ∙ sym (ap is_lifecycle_op ((str_eq_iff path word).0 e)) ∙ h))
  | inr e ↦ e
]

fixed_paths :
    (is_lifecycle_op (str "/containers/create") ≡ false)
    × (is_lifecycle_op (str "/images/create") ≡ false)
    × (is_lifecycle_op (str "/grpc") ≡ false)
unfolding is_lifecycle_op str ends_with
fixed_paths = (refl, refl, refl)

-- A lifecycle operation is at no path with a rule of its own.
pub lifecycle_away :
    (path : Str)
    → is_lifecycle_op path ≡ true
    → (str_eq path (str "/containers/create") ≡ false)
      × (str_eq path (str "/images/create") ≡ false)
      × (str_eq path (str "/grpc") ≡ false)
lifecycle_away path h =
    let (a, b, c) = fixed_paths in (differs path _ a h, differs path _ b h, differs path _ c h)

create_path_lem :
    (path : Str) → path ≡ str "/containers/create" → str_eq path (str "/containers/create") ≡ true
create_path_lem path e = (str_eq_iff _ _).1 e

pub images_path_lem :
    (path : Str)
    → path ≡ str "/images/create"
    → (str_eq path (str "/containers/create") ≡ false) × (str_eq path (str "/images/create") ≡ true)
unfolding str_eq str
images_path_lem path e = rw e (refl, refl)
