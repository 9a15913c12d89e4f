-- ===== src/Reconcile/Keys.antt =====
-- libs/domain/reconciliation.go: the identities that the reconciliation goes through.
use sshai.Base.{
  String, Bool, true, false, ◌||◌, some, List, [], ◌∷◌, ◌++◌, ◌≡◌, inl, inr, refl, ap, ◌∙◌, arith,
  Bool-cases, is_some, same_text, same_text_iff, has_text, if◌then◌else◌,
}
use sshai.Reconcile.Model.{at_key, put, keys, without, insert, sort_strings}

module _ {A : Type 0} where
  pub at_key-put :
      (id key : String) (v : A) (l : List (String × A))
      → at_key id (put key v l) ≡ (if same_text id key then some v else at_key id l)
  unfolding at_key put
  at_key-put id key v [] = refl
  at_key-put id key v ((k, a) ∷ rest) = elim (Bool-cases (same_text key k)) [
    | inl same ↦
        let f = (same_text_iff key k).0 same in
        ground (arith, same, ap (λ (x : String). same_text id x) f)
    | inr other ↦ elim (Bool-cases (same_text id k)) [
      | inl here ↦
          let g = (same_text_iff id k).0 here in
          ground (
            arith,
            other,
            here,
            (same_text_iff id key).0,
            (same_text_iff key k).1,
            g,
            at_key-put id key v rest,
          )
      | inr there ↦ ground (arith, other, there, at_key-put id key v rest)
    ]
  ]

  pub has_text-keys :
      (id : String) (l : List (String × A)) → has_text id (keys l) ≡ is_some (at_key id l)
  unfolding at_key keys has_text
  has_text-keys id [] = refl
  has_text-keys id ((k, a) ∷ rest) = ground (arith, has_text-keys id rest)

pub has_text-append :
    (s : String) (l m : List String) → has_text s (l ++ m) ≡ (has_text s l || has_text s m)
unfolding has_text
has_text-append s [] m = refl
has_text-append s (t ∷ rest) m = ground (arith, has_text-append s rest m)

has_text-insert :
    (s t : String) (l : List String) → has_text s (insert t l) ≡ (same_text s t || has_text s l)
unfolding has_text insert
has_text-insert s t [] = refl
has_text-insert s t (u ∷ rest) = ground (arith, has_text-insert s t rest)

pub has_text-sort : (s : String) (l : List String) → has_text s (sort_strings l) ≡ has_text s l
unfolding has_text sort_strings
has_text-sort s [] = refl
has_text-sort s (t ∷ rest) =
    has_text-insert s t (sort_strings rest)
    ∙ ap (λ (b : Bool). same_text s t || b) (has_text-sort s rest)

pub has_text-without :
    (s : String) (l others : List String)
    → has_text s l ≡ true
    → has_text s others ≡ false
    → has_text s (without l others) ≡ true
unfolding has_text without
has_text-without s [] others h n = absurd (ground (arith, h))
has_text-without s (t ∷ rest) others h n = elim (Bool-cases (same_text s t)) [
  | inl same ↦
      ground (arith, same, n, ap (λ (x : String). has_text x others) ((same_text_iff s t).0 same))
  | inr other ↦ ground (arith, other, h, has_text-without s rest others)
]

pub without-has_text :
    (s : String) (l others : List String)
    → has_text s (without l others) ≡ true
    → has_text s l ≡ true
unfolding has_text without
without-has_text s [] others h = h
without-has_text s (t ∷ rest) others h = ground (arith, h, without-has_text s rest others)
