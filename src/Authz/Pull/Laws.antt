-- ===== src/Authz/Pull/Laws.antt =====
-- About `pull_policy` of docker-authz-plugin/src/lib.rs.
use fire_crow.Prelude.{
  ◌≡◌, ◌≢◌, refl, ◌↔◌, ◌⊎◌, inl, inr, true, some, List, [], ◌∷◌, ◌++◌, arith, Option-cases,
}
use fire_crow.Text.{Str, str, split, rsplit_once}
use fire_crow.Text.Equality.{one_of_iff, In, str_eq_iff, str_eq_refl}
use fire_crow.Text.Split.{Without, Without-of_has_byte, has_byte_of_Without}
use fire_crow.Text.Rsplit.{
  eq_of_rsplit_once, Without-of_rsplit_once, rsplit_once-append, rsplit_once_of_Without,
}
use fire_crow.Authz.Request.{AuthzRequest}
use fire_crow.Authz.Pull.{
  approved_images, values_of, query_of, Candidate, refused, reference, recombine, candidate,
  decide_candidate, pull_from, pull_policy,
}

-- The image that a `fromImage` value and a tag name together: the value and the tag, or the value
-- where it ends in that tag already.
abbrev pub Tagged : Str → Str → Str → Type 0
Tagged from tag image =
    Without b'@' from
    × ((Without b':' from × (image ≡ from ++ b':' ∷ tag))
        ⊎ ((name : Str) × (from ≡ name ++ b':' ∷ tag) × Without b':' tag × (from ≡ image)))

-- The image that is named with no tag, or with one that is not empty.
abbrev pub Names : Str → List Str → Str → Type 0
Names from [] image = from ≡ image
Names from (tag ∷ []) image = (tag ≢ []) × Tagged from tag image
Names from (_ ∷ _ ∷ _) image = ⊥

recombine_sound :
    (from tag image : Str) → recombine from tag ≡ reference image → Tagged from tag image
unfolding recombine
recombine_sound from tag image h = elim (Option-cases (rsplit_once b':' from)) [
  | inl e ↦ (
    Without-of_has_byte b'@' from (ground arith),
    inl (Without-of_rsplit_once b':' from e, ground arith),
  )
  | inr ((name, embedded), e) ↦
      let (same, clean) = eq_of_rsplit_once b':' from name embedded e in
      let tagged : embedded ≡ tag = ground (arith, str_eq_iff embedded tag) in
      (
        Without-of_has_byte b'@' from (ground arith),
        inr (name, rw tagged at same, rw tagged at clean, ground arith),
      )
]

recombine_complete :
    (from tag image : Str) → Tagged from tag image → recombine from tag ≡ reference image
unfolding recombine
recombine_complete from tag image (digest, inl (clean, e)) =
    rw (has_byte_of_Without b'@' from digest, rsplit_once_of_Without b':' from clean, e)
recombine_complete from tag image (digest, inr (name, e, clean, same)) =
    let found : rsplit_once b':' from ≡ some (name, tag) =
      rw e (rsplit_once-append b':' name tag clean) in
    rw (has_byte_of_Without b'@' from digest, found, str_eq_refl tag, same)

candidate_iff :
    (from : Str) (tags : List Str) (image : Str)
    → (candidate from tags ≡ reference image) ↔ Names from tags image
unfolding candidate
candidate_iff from [] image = ground arith
candidate_iff from (tag ∷ []) image = (
  λ h. (ground arith, recombine_sound from tag image (ground arith)),
  λ (n, t). ground (arith, n, recombine_complete from tag image t),
)
candidate_iff from (_ ∷ _ ∷ _) image = ground arith

-- A pull that the policy is to let through.
pub record IsPullable (req : AuthzRequest) : Type 0 where
  pub from : Str
  pub single : values_of (str "fromImage") (split b'&' (query_of req.uri)) ≡ from ∷ []
  pub present : from ≢ []
  pub image : Str
  pub approved : In image approved_images
  pub names : Names from (values_of (str "tag") (split b'&' (query_of req.uri))) image

decide_candidate_iff :
    (c : Candidate)
    → ((decide_candidate c).allow ≡ true)
      ↔ ((image : Str) × (c ≡ reference image) × In image approved_images)
unfolding decide_candidate
decide_candidate_iff (refused why) = (λ h. absurd (ground arith), λ (i, e, a). absurd (cc))
decide_candidate_iff (reference image) = (
  λ h. (image, refl, (one_of_iff approved_images image).0 (ground arith)),
  λ (i, e, a). ground (arith, (one_of_iff approved_images i).1 a),
)

pull_from_sound :
    (froms tags : List Str)
    → (pull_from froms tags).allow ≡ true
    → (from : Str) × (image : Str) × (froms ≡ from ∷ [])
      × (from ≢ [])
      × In image approved_images
      × Names from tags image
unfolding pull_from
pull_from_sound (from ∷ []) tags h =
    let (image, e, a) = (decide_candidate_iff (candidate from tags)).0 (ground arith) in
    (from, image, refl, ground arith, a, (candidate_iff from tags image).0 e)
pull_from_sound [] tags h = absurd (ground arith)
pull_from_sound (_ ∷ _ ∷ _) tags h = absurd (ground arith)

pull_from_complete :
    (from image : Str) (tags : List Str)
    → from ≢ []
    → In image approved_images
    → Names from tags image
    → (pull_from (from ∷ []) tags).allow ≡ true
unfolding pull_from
pull_from_complete from image tags n a k =
    let allowed =
      (decide_candidate_iff (candidate from tags)).1
        (image, (candidate_iff from tags image).1 k, a) in
    ground (arith, n, allowed)

-- `pull_policy` allows a request exactly if its query has one `fromImage` value, which is not
-- empty, and no tag or one tag that is not empty, and they name an approved image: the value
-- itself, or, with a tag and no digest, the value followed by the tag, or the value that ends in
-- that tag already.
pub pull_policy-allow_iff : (req : AuthzRequest) → ((pull_policy req).allow ≡ true) ↔ IsPullable req
unfolding pull_policy
pull_policy-allow_iff req = (
  λ h.
      let (from, image, e, n, a, k) = pull_from_sound _ _ h in
      record { from = from; single = e; present = n; image = image; approved = a; names = k },
  λ p. rw p.single (pull_from_complete p.from p.image _ p.present p.approved p.names),
)
