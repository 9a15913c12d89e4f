-- ===== src/Profile/Refs.antt =====
-- libs/domain/profile.go: which compositions of Capsule Refs are valid.
use sshai.Base.{
  has_text, ℕ, ◌+◌, String, true, false, List, [], ◌∷◌, ◌≡◌, ◌≢◌, ◌↔◌, refl, sym, arith, same_text,
  same_text_iff, ok,
}
use sshai.Profile.Model.{
  CapsuleRef, validate_capsule_ref, validate_refs_from, validate_capsule_refs,
}

-- Every ref passes its own validation.
abbrev pub EachValid : List CapsuleRef → Type 0
EachValid [] = Unit {0}
EachValid (r ∷ rest) = (validate_capsule_ref r ≡ ok tt) × EachValid rest

-- No ref has the text.
abbrev pub Differs : String → List CapsuleRef → Type 0
Differs s [] = Unit {0}
Differs s (r ∷ rest) = (s ≢ r.ref) × Differs s rest

abbrev pub Distinct : List CapsuleRef → Type 0
Distinct [] = Unit {0}
Distinct (r ∷ rest) = Differs r.ref rest × Distinct rest

abbrev Fresh : List String → List CapsuleRef → Type 0
Fresh seen [] = Unit {0}
Fresh seen (r ∷ rest) = (has_text r.ref seen ≡ false) × Fresh seen rest

Fresh-add :
    (s : String) (seen : List String) (refs : List CapsuleRef)
    → Differs s refs
    → Fresh seen refs
    → Fresh (s ∷ seen) refs
unfolding has_text
Fresh-add s seen [] d f = tt
Fresh-add s seen (r ∷ rest) d f =
    let other : same_text r.ref s ≡ true → ⊥ = λ e. d.0 (sym ((same_text_iff r.ref s).0 e)) in
    (ground (arith, f.0, other), Fresh-add s seen rest d.1 f.1)

Fresh-split :
    (s : String) (seen : List String) (refs : List CapsuleRef)
    → Fresh (s ∷ seen) refs
    → Differs s refs × Fresh seen refs
unfolding has_text
Fresh-split s seen [] f = (tt, tt)
Fresh-split s seen (r ∷ rest) f =
    let (d, g) = Fresh-split s seen rest f.1 in
    ((λ e. ground (arith, f.0, (same_text_iff r.ref s).1 (sym e)), d), (ground (arith, f.0), g))

Fresh-nil : (refs : List CapsuleRef) → Fresh [] refs
unfolding has_text
Fresh-nil [] = tt
Fresh-nil (r ∷ rest) = (refl, Fresh-nil rest)

loop_accepts :
    (index : ℕ) (seen : List String) (refs : List CapsuleRef)
    → EachValid refs
    → Distinct refs
    → Fresh seen refs
    → validate_refs_from index seen refs ≡ ok tt
unfolding validate_refs_from
loop_accepts index seen [] v d f = refl
loop_accepts index seen (r ∷ rest) v d f = ground (
  arith,
  v.0,
  f.0,
  loop_accepts (index + 1) (r.ref ∷ seen) rest v.1 d.1 (Fresh-add r.ref seen rest d.0 f.1),
)

loop_accepted :
    (index : ℕ) (seen : List String) (refs : List CapsuleRef)
    → validate_refs_from index seen refs ≡ ok tt
    → EachValid refs × Distinct refs × Fresh seen refs
unfolding validate_refs_from
loop_accepted index seen [] h = (tt, tt, tt)
loop_accepted index seen (r ∷ rest) h =
    let (v, d, f) = loop_accepted (index + 1) (r.ref ∷ seen) rest (ground (arith, h)) in
    let (differs, fresh) = Fresh-split r.ref seen rest f in
    ((ground (arith, h), v), (differs, d), (ground (arith, h), fresh))

-- The Capsule Refs of a version are valid exactly when each is and no two have the same reference.
pub validate_capsule_refs_iff :
    (refs : List CapsuleRef)
    → (validate_capsule_refs refs ≡ ok tt) ↔ (EachValid refs × Distinct refs)
unfolding validate_capsule_refs
validate_capsule_refs_iff refs = (
  λ h. let (v, d, _) = loop_accepted 0 [] refs h in (v, d),
  λ w. loop_accepts 0 [] refs w.0 w.1 (Fresh-nil refs),
)
